-- ===== src/PrimaryMap/Injective.antt =====
-- internal/db/primary_map.go: `Put`, `Delete` and the documents that keys share.
use zvec.Base.{
  ℕ, ◌≡◌, ◌≢◌, List, [], ◌∷◌, false, Option, none, some, arith, bytes_equal, bytes_equal_iff,
  if◌then◌else◌, Bool-cases, inl, inr,
}
use zvec.Errors.{ok, Context}
use zvec.PrimaryMap.{
  new_primary_key_map, DocumentLocation, PrimaryKeyMap, same_location, lookup, assign, remove,
  taken_by_other, get, put, delete,
}
use zvec.PrimaryMap.Laws.{
  lookup-assign, lookup-remove, OneEach-assign, Absent, OneEach, Untaken, Disjoint, IsInjective,
}

module _ (key : List ℕ) (location : DocumentLocation) where
  Untaken-free :
      (entries : List (List ℕ × DocumentLocation))
      → taken_by_other key location entries ≡ false
      → Absent key entries
      → Untaken location entries
  unfolding taken_by_other
  Untaken-free [] t a = tt
  Untaken-free ((k, l) ∷ entries) t (ne, a) = (ground arith, Untaken-free entries (ground arith) a)

  Untaken-assign :
      (l : DocumentLocation) (entries : List (List ℕ × DocumentLocation))
      → same_location location l ≡ false
      → Untaken l entries
      → Untaken l (assign key location entries)
  unfolding assign
  Untaken-assign l [] ne u = (ne, tt)
  Untaken-assign l ((k, m) ∷ entries) ne (nm, u) = elim (Bool-cases (bytes_equal k key)) [
    | inl same ↦ rw same (ne, u)
    | inr other ↦ rw other (nm, Untaken-assign l entries ne u)
  ]

  Disjoint-assign :
      (entries : List (List ℕ × DocumentLocation))
      → taken_by_other key location entries ≡ false
      → OneEach entries
      → Disjoint entries
      → Disjoint (assign key location entries)
  unfolding assign taken_by_other
  Disjoint-assign [] t o d = (tt, tt)
  Disjoint-assign ((k, l) ∷ entries) t (a, o) (u, d) = elim (Bool-cases (bytes_equal k key)) [
    | inl same ↦
        rw same (Untaken-free entries (ground arith) (rw ((bytes_equal_iff k key).0 same) at a), d)
    | inr other ↦
        rw other
          (Untaken-assign l entries (ground arith) u, Disjoint-assign entries (ground arith) o d)
  ]

Absent-remove :
    (k key : List ℕ) (entries : List (List ℕ × DocumentLocation))
    → Absent k entries
    → Absent k (remove key entries)
unfolding remove
Absent-remove k key [] a = tt
Absent-remove k key ((j, l) ∷ entries) (ne, a) = elim (Bool-cases (bytes_equal j key)) [
  | inl same ↦ rw same a
  | inr other ↦ rw other (ne, Absent-remove k key entries a)
]

Untaken-remove :
    (l : DocumentLocation) (key : List ℕ) (entries : List (List ℕ × DocumentLocation))
    → Untaken l entries
    → Untaken l (remove key entries)
unfolding remove
Untaken-remove l key [] u = tt
Untaken-remove l key ((j, m) ∷ entries) (ne, u) = elim (Bool-cases (bytes_equal j key)) [
  | inl same ↦ rw same u
  | inr other ↦ rw other (ne, Untaken-remove l key entries u)
]

remove-IsInjective :
    (key : List ℕ) (entries : List (List ℕ × DocumentLocation))
    → OneEach entries × Disjoint entries
    → OneEach (remove key entries) × Disjoint (remove key entries)
unfolding remove
remove-IsInjective key [] h = (tt, tt)
remove-IsInjective key ((k, l) ∷ entries) ((a, o), (u, d)) = elim (Bool-cases (bytes_equal k key)) [
  | inl same ↦ rw same (o, d)
  | inr other ↦
      let (o', d') = remove-IsInjective key entries (o, d) in
      rw other ((Absent-remove k key entries a, o'), (Untaken-remove l key entries u, d'))
]

-- What a successful `Put` has done.
pub record Written (m : PrimaryKeyMap) (key : List ℕ) (location : DocumentLocation)
    (m' : PrimaryKeyMap) (previous : Option DocumentLocation) : Type 0 where
  pub kept : IsInjective m'
  pub replaced : previous ≡ get m key
  pub reads :
      (key' : List ℕ) → get m' key' ≡ (if bytes_equal key key' then some location else get m key')

-- A successful `Put` on an injective map leaves it injective, returns the location that the key had,
-- and changes what is read at that key alone.
pub put-Written :
    (ctx : Context) (key : List ℕ) (location : DocumentLocation) (m m' : PrimaryKeyMap)
    (previous : Option DocumentLocation)
    → IsInjective m
    → put ctx key location m ≡ ok (m', previous)
    → Written m key location m' previous
unfolding put get
put-Written ctx key location m m' previous h e =
    let free : taken_by_other key location m.entries ≡ false = ground arith in
    let now : m' ≡ record { entries = assign key location m.entries } = ground arith in
    record {
      kept = rw now (record {
        one_each = OneEach-assign key location m.entries h.one_each;
        disjoint = Disjoint-assign key location m.entries free h.one_each h.disjoint;
      });
      replaced = ground arith;
      reads = λ key'. rw now (lookup-assign key key' location m.entries);
    }

-- A successful `Delete` on an injective map leaves it injective, returns the location that the key
-- had, if any, and nothing is read at that key any more, while all other keys read as before.
pub delete_lem :
    (ctx : Context) (key : List ℕ) (m m' : PrimaryKeyMap) (previous : Option DocumentLocation)
    → IsInjective m
    → delete ctx key m ≡ ok (m', previous)
    → IsInjective m'
      × (previous ≡ get m key)
      × ((key' : List ℕ) → get m' key' ≡ (if bytes_equal key key' then none else get m key'))
unfolding delete get
delete_lem ctx key m m' previous h e =
    let now : m' ≡ record { entries = remove key m.entries } = ground arith in
    let (o, d) = remove-IsInjective key m.entries (h.one_each, h.disjoint) in
    (
      rw now (record { one_each = o; disjoint = d }),
      ground arith,
      λ key'. rw now (lookup-remove key key' m.entries h.one_each),
    )

lookup-Untaken :
    (key : List ℕ) (location : DocumentLocation) (entries : List (List ℕ × DocumentLocation))
    → Untaken location entries
    → lookup key entries ≢ some location
unfolding lookup
lookup-Untaken key location [] u e = cc
lookup-Untaken key location ((k, l) ∷ entries) (ne, u) e = elim (Bool-cases (bytes_equal k key)) [
  | inl same ↦ ground (arith, same)
  | inr other ↦ lookup-Untaken key location entries u (rw other at e)
]

lookup-injective :
    (key key' : List ℕ) (location : DocumentLocation) (entries : List (List ℕ × DocumentLocation))
    → Disjoint entries
    → lookup key entries ≡ some location
    → lookup key' entries ≡ some location
    → key ≡ key'
unfolding lookup
lookup-injective key key' location [] d e e' = cc
lookup-injective key key' location ((k, l) ∷ entries) (u, d) e e' = ground (
  arith,
  bytes_equal_iff k key,
  bytes_equal_iff k key',
  lookup-Untaken key l entries u,
  lookup-Untaken key' l entries u,
  lookup-injective key key' location entries d,
)

-- The maps that successful operations make from the empty one
pub data Reach : PrimaryKeyMap → Type 0 where
  created : Reach new_primary_key_map
  put_next :
      {m m' : PrimaryKeyMap} (ctx : Context) (key : List ℕ) (location : DocumentLocation)
      (previous : Option DocumentLocation)
      → Reach m
      → put ctx key location m ≡ ok (m', previous)
      → Reach m'
  delete_next :
      {m m' : PrimaryKeyMap} (ctx : Context) (key : List ℕ) (previous : Option DocumentLocation)
      → Reach m
      → delete ctx key m ≡ ok (m', previous)
      → Reach m'

Reach-IsInjective : {m : PrimaryKeyMap} → Reach m → IsInjective m
unfolding new_primary_key_map
Reach-IsInjective created = record { one_each = tt; disjoint = tt }
Reach-IsInjective (put_next {m = m} {m' = m'} ctx key location previous r e) =
    (put-Written ctx key location m m' previous (Reach-IsInjective r) e).kept
Reach-IsInjective (delete_next {m = m} {m' = m'} ctx key previous r e) =
    (delete_lem ctx key m m' previous (Reach-IsInjective r) e).0

-- After any sequence of successful `Put` and `Delete` on a new map, two keys never read one location: a
-- document belongs to one key.
pub get-injective :
    (m : PrimaryKeyMap) (key key' : List ℕ) (location : DocumentLocation)
    → Reach m
    → key ≢ key'
    → get m key ≡ some location
    → get m key' ≢ some location
unfolding get
get-injective m key key' location r other e e' =
    other (lookup-injective key key' location m.entries (Reach-IsInjective r).disjoint e e')
