-- ===== src/Sql/Schema.antt =====
-- internal/db/sql/schema.go: the fields that filters may name, as the list of them in schema order.
use zvec.Base.{
  ℕ, ◌≡◌, refl, sym, ◌∙◌, List, [], ◌∷◌, ◌++◌, Bool, true, false, not, ◌&&◌, Option, none, some,
  All, arith, bytes_equal, bytes_equal_iff, append-nil, append_assoc, inl, inr, if◌then◌else◌,
}
use zvec.Errors.{
  Result-cases, Result, ok, ◌>>◌, reject, empty_field_name, duplicate_field, invalid_field_kind,
  unfilterable_index,
}
use zvec.Sql.Value.{valid}
use zvec.Sql.Plan.{Field}

abbrev pub Schema : Type 0
Schema = List Field

-- (Schema).Field
unfoldable pub find_field : List ℕ → Schema → Option Field
find_field name [] = none
find_field name (f ∷ fields) = if bytes_equal f.name name then some f else find_field name fields

unfoldable is_found : Option Field → Bool
is_found none = false
is_found (some f) = true

-- The tests of `NewSchema` on one field, behind the fields before it
unfoldable check_field : Schema → Field → Result (Unit {0})
unfolding find_field is_found valid
check_field earlier f = do
  reject (bytes_equal f.name []) empty_field_name
  reject (is_found (find_field f.name earlier)) duplicate_field
  reject (f.filterable && not (valid f.kind)) invalid_field_kind
  reject (f.indexed && not f.filterable) unfilterable_index

unfoldable add_fields : Schema → List Field → Result Schema
unfolding check_field
add_fields earlier [] = ok earlier
add_fields earlier (f ∷ fields) = do check_field earlier f; add_fields (earlier ++ (f ∷ [])) fields

unfoldable pub new_schema : List Field → Result Schema
unfolding add_fields
new_schema fields = add_fields [] fields

-- A field that its name finds, and that a filter can use as it says
pub record Usable (s : Schema) (f : Field) : Type 0 where
  pub found : find_field f.name s ≡ some f
  pub kind_known : f.filterable && not (valid f.kind) ≡ false
  pub index_read : f.indexed && not f.filterable ≡ false

find_field-snoc :
    (name : List ℕ) (s : Schema) (g f : Field)
    → find_field name s ≡ some f
    → find_field name (s ++ (g ∷ [])) ≡ some f
unfolding find_field
find_field-snoc name [] g f h = absurd (ground arith)
find_field-snoc name (x ∷ s) g f h = ground (arith, find_field-snoc name s g f)

find_field-new :
    (s : Schema) (f : Field)
    → find_field f.name s ≡ none
    → find_field f.name (s ++ (f ∷ [])) ≡ some f
unfolding find_field
find_field-new [] f h = ground (arith, (bytes_equal_iff f.name f.name).1 refl)
find_field-new (x ∷ s) f h = ground (arith, find_field-new s f)

All-Usable : (fs s : Schema) (g : Field) → All (Usable s) fs → All (Usable (s ++ (g ∷ []))) fs
All-Usable [] s g a = tt
All-Usable (f ∷ fs) s g (u, a) = (
  record {
    found = find_field-snoc f.name s g f u.found;
    kind_known = u.kind_known;
    index_read = u.index_read;
  },
  All-Usable fs s g a,
)

All-snoc : (P : Field → Type 0) (fs : Schema) (g : Field) → All P fs → P g → All P (fs ++ (g ∷ []))
All-snoc P [] g a p = (p, tt)
All-snoc P (f ∷ fs) g (q, a) p = (q, All-snoc P fs g a p)

check_field-Usable : (s : Schema) (f : Field) → check_field s f ≡ ok tt → Usable (s ++ (f ∷ [])) f
unfolding check_field is_found
check_field-Usable s f h = record {
  found = find_field-new s f (ground arith);
  kind_known = ground arith;
  index_read = ground arith;
}

add_fields-Usable :
    (earlier fields s : Schema)
    → All (Usable earlier) earlier
    → add_fields earlier fields ≡ ok s
    → (s ≡ earlier ++ fields) × All (Usable s) s
unfolding add_fields
add_fields-Usable earlier [] s a h =
    let same : s ≡ earlier = ground arith in rw same (sym (append-nil earlier), a)
add_fields-Usable earlier (f ∷ fields) s a h = elim (Result-cases (check_field earlier f)) [
  | inr (e, c) ↦ absurd (ground arith)
  | inl (tt, c) ↦
      let rest : add_fields (earlier ++ (f ∷ [])) fields ≡ ok s = ground arith in
      let more =
        All-snoc (Usable (earlier ++ (f ∷ []))) earlier f (All-Usable earlier earlier f a)
          (check_field-Usable earlier f c) in
      let (e, u) = add_fields-Usable (earlier ++ (f ∷ [])) fields s more rest in
      (e ∙ append_assoc earlier (f ∷ []) fields, u)
]

-- A schema that `NewSchema` accepts has the given fields in their order; each is what its name finds, has a
-- valid kind if it is filterable, and is filterable if it is indexed.
pub new_schema-AllUsable :
    (fields s : List Field) → new_schema fields ≡ ok s → (s ≡ fields) × All (Usable s) s
unfolding new_schema
new_schema-AllUsable fields s h = add_fields-Usable [] fields s tt h
