-- ===== src/PrimaryMap.antt =====
-- internal/db/primary_map.go: the map from primary keys to document locations. Go's map is an
-- association list; no operation here depends on its order. Methods on a nil map are not modelled.
pub mod Laws
pub mod Injective
use zvec.Base.{
  ℕ, List, [], ◌∷◌, Bool, true, false, ◌&&◌, not, Option, none, some, length, ltb, ◌==◌,
  bytes_equal, if◌then◌else◌, map,
}
use zvec.Errors.{
  Result, ok, err, ◌>>=◌, ◌>>◌, reject, Context, check_context, empty_primary_key, long_primary_key,
  invalid_utf8_primary_key, location_taken,
}
use zvec.Go.Utf8.{valid_string}

-- 64 << 10
abbrev pub max_primary_key_bytes : ℕ
max_primary_key_bytes = 65536

pub record DocumentLocation : Type 0 where
  pub segment_id : ℕ
  pub doc_id : ℕ

pub record PrimaryKeyMap : Type 0 where
  pub entries : List (List ℕ × DocumentLocation)

unfoldable pub validate_primary_key : List ℕ → Result (Unit {0})
validate_primary_key key = do
  reject (length key == 0) empty_primary_key
  reject (ltb max_primary_key_bytes (length key)) long_primary_key
  reject (not (valid_string key)) invalid_utf8_primary_key

abbrev pub same_location : DocumentLocation → DocumentLocation → Bool
same_location a b = a.segment_id == b.segment_id && a.doc_id == b.doc_id

pub lookup : List ℕ → List (List ℕ × DocumentLocation) → Option DocumentLocation
lookup key [] = none
lookup key ((k, location) ∷ entries) =
    if bytes_equal k key then some location else lookup key entries

pub assign :
    List ℕ → DocumentLocation → List (List ℕ × DocumentLocation) → List (List ℕ × DocumentLocation)
assign key location [] = (key, location) ∷ []
assign key location ((k, l) ∷ entries) =
    if bytes_equal k key then (key, location) ∷ entries else (k, l) ∷ assign key location entries

pub remove : List ℕ → List (List ℕ × DocumentLocation) → List (List ℕ × DocumentLocation)
remove key [] = []
remove key ((k, l) ∷ entries) = if bytes_equal k key then entries else (k, l) ∷ remove key entries

-- The loop of `Put`: another key has the location.
pub taken_by_other : List ℕ → DocumentLocation → List (List ℕ × DocumentLocation) → Bool
taken_by_other key location [] = false
taken_by_other key location ((k, l) ∷ entries) =
    if not (bytes_equal k key) && same_location l location
    then true
    else taken_by_other key location entries

unfoldable pub new_primary_key_map : PrimaryKeyMap
new_primary_key_map = record { entries = [] }

unfoldable pub get : PrimaryKeyMap → List ℕ → Option DocumentLocation
unfolding lookup
get m key = lookup key m.entries

-- The map after the write, and the location that it replaced.
unfoldable pub put :
    Context
    → List ℕ
    → DocumentLocation
    → PrimaryKeyMap
    → Result (PrimaryKeyMap × Option DocumentLocation)
unfolding lookup assign taken_by_other
put ctx key location m = do
  check_context ctx
  validate_primary_key key
  reject (taken_by_other key location m.entries) location_taken
  ok (record { entries = assign key location m.entries }, lookup key m.entries)

unfoldable pub delete :
    Context → List ℕ → PrimaryKeyMap → Result (PrimaryKeyMap × Option DocumentLocation)
unfolding lookup remove
delete ctx key m = do
  check_context ctx
  ok (record { entries = remove key m.entries }, lookup key m.entries)

-- Locations and found flags, in input order.
unfoldable pub multi_get : PrimaryKeyMap → List (List ℕ) → List (Option DocumentLocation)
multi_get m keys = map (get m) keys

unfoldable pub count : PrimaryKeyMap → ℕ
count m = length m.entries
