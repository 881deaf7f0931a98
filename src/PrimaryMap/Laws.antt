-- ===== src/PrimaryMap/Laws.antt =====
-- The map as a partial function, and the invariant of its writers: one entry for a key, and no
-- location twice.
use zvec.Base.{
  ℕ, ◌≡◌, refl, List, [], ◌∷◌, false, none, some, arith, bytes_equal, bytes_equal_iff,
  if◌then◌else◌, Bool-cases, inl, inr,
}
use zvec.PrimaryMap.{DocumentLocation, PrimaryKeyMap, same_location, lookup, assign, remove}

pub lookup-assign :
    (key key' : List ℕ) (location : DocumentLocation) (entries : List (List ℕ × DocumentLocation))
    → lookup key' (assign key location entries)
      ≡ (if bytes_equal key key' then some location else lookup key' entries)
unfolding lookup assign
lookup-assign key key' location [] = refl
lookup-assign key key' location ((k, l) ∷ entries) = ground (
  arith,
  lookup-assign key key' location entries,
  bytes_equal_iff k key,
  bytes_equal_iff k key',
  bytes_equal_iff key key',
)

-- No key stands twice.
abbrev pub Absent : List ℕ → List (List ℕ × DocumentLocation) → Type 0
Absent key [] = Unit {0}
Absent key ((k, l) ∷ entries) = (bytes_equal k key ≡ false) × Absent key entries

abbrev pub OneEach : List (List ℕ × DocumentLocation) → Type 0
OneEach [] = Unit {0}
OneEach ((k, l) ∷ entries) = Absent k entries × OneEach entries

-- No location stands twice.
abbrev pub Untaken : DocumentLocation → List (List ℕ × DocumentLocation) → Type 0
Untaken location [] = Unit {0}
Untaken location ((k, l) ∷ entries) = (same_location l location ≡ false) × Untaken location entries

abbrev pub Disjoint : List (List ℕ × DocumentLocation) → Type 0
Disjoint [] = Unit {0}
Disjoint ((k, l) ∷ entries) = Untaken l entries × Disjoint entries

pub record IsInjective (m : PrimaryKeyMap) : Type 0 where
  pub one_each : OneEach m.entries
  pub disjoint : Disjoint m.entries

lookup-Absent :
    (key : List ℕ) (entries : List (List ℕ × DocumentLocation))
    → Absent key entries
    → lookup key entries ≡ none
unfolding lookup
lookup-Absent key [] a = refl
lookup-Absent key ((k, l) ∷ entries) (ne, a) = rw ne (lookup-Absent key entries a)

pub lookup-remove :
    (key key' : List ℕ) (entries : List (List ℕ × DocumentLocation))
    → OneEach entries
    → lookup key' (remove key entries)
      ≡ (if bytes_equal key key' then none else lookup key' entries)
unfolding lookup remove
lookup-remove key key' [] o = ground arith
lookup-remove key key' ((k, l) ∷ entries) (a, o) = ground (
  arith,
  lookup-remove key key' entries o,
  bytes_equal_iff k key,
  bytes_equal_iff k key',
  bytes_equal_iff key key',
  lookup-Absent k entries a,
)

Absent-assign :
    (k key : List ℕ) (location : DocumentLocation) (entries : List (List ℕ × DocumentLocation))
    → bytes_equal key k ≡ false
    → Absent k entries
    → Absent k (assign key location entries)
unfolding assign
Absent-assign k key location [] ne a = (ne, tt)
Absent-assign k key location ((j, l) ∷ entries) ne (nj, a) = elim (Bool-cases (bytes_equal j key)) [
  | inl same ↦ rw same (ne, a)
  | inr other ↦ rw other (nj, Absent-assign k key location entries ne a)
]

pub OneEach-assign :
    (key : List ℕ) (location : DocumentLocation) (entries : List (List ℕ × DocumentLocation))
    → OneEach entries
    → OneEach (assign key location entries)
unfolding assign
OneEach-assign key location [] o = (tt, tt)
OneEach-assign key location ((k, l) ∷ entries) (a, o) = elim (Bool-cases (bytes_equal k key)) [
  | inl same ↦ rw same (rw ((bytes_equal_iff k key).0 same) at a, o)
  | inr other ↦ rw other (
    Absent-assign k key location entries
        (ground (arith, bytes_equal_iff k key, bytes_equal_iff key k)) a,
    OneEach-assign key location entries o,
  )
]
