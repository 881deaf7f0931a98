-- ===== src/DeleteStore.antt =====
-- internal/db/delete_store.go: the set of logically deleted document IDs. Go's map is a list without
-- a repetition. Methods on a nil store are not modelled.
pub mod Laws
pub mod RoundTrip
use zvec.Base.{
  ℕ, zero, suc, ◌+◌, ◌*◌, ◌/◌, ◌^◌, List, [], ◌∷◌, ◌++◌, Bool, true, false, not, ◌||◌, ◌&&◌, Option,
  none, some, length, take, drop, le_bytes, from_le, ltb, leb, ◌==◌, if◌then◌else◌,
}
use zvec.Errors.{
  Result, ok, err, ◌>>=◌, ◌>>◌, reject, Context, check_context, snapshot_corrupt,
  snapshot_too_large, out_of_fuel,
}
use zvec.Snapshot.{encode_snapshot, decode_snapshot, max_snapshot_payload}

pub record DeleteStore : Type 0 where
  pub deleted : List ℕ

-- "ZVECDEL\0"
abbrev pub delete_snapshot_magic : List ℕ
delete_snapshot_magic = 0x5a ∷ 0x56 ∷ 0x45 ∷ 0x43 ∷ 0x44 ∷ 0x45 ∷ 0x4c ∷ 0 ∷ []

unfoldable pub member : ℕ → List ℕ → Bool
member doc_id [] = false
member doc_id (x ∷ xs) = if x == doc_id then true else member doc_id xs

pub add : ℕ → List ℕ → List ℕ
add doc_id xs = if member doc_id xs then xs else doc_id ∷ xs

pub without : ℕ → List ℕ → List ℕ
without doc_id [] = []
without doc_id (x ∷ xs) = if x == doc_id then xs else x ∷ without doc_id xs

unfoldable pub new_delete_store : DeleteStore
new_delete_store = record { deleted = [] }

unfoldable pub is_deleted : DeleteStore → ℕ → Bool
unfolding member
is_deleted s doc_id = member doc_id s.deleted

-- The set, and whether it changed.
unfoldable pub mark_deleted : Context → ℕ → DeleteStore → Result (DeleteStore × Bool)
unfolding member add
mark_deleted ctx doc_id s = do
  check_context ctx
  ok (record { deleted = add doc_id s.deleted }, not (member doc_id s.deleted))

unfoldable pub restore : Context → ℕ → DeleteStore → Result (DeleteStore × Bool)
unfolding member without
restore ctx doc_id s = do
  check_context ctx
  ok (record { deleted = without doc_id s.deleted }, member doc_id s.deleted)

unfoldable pub count : DeleteStore → ℕ
count s = length s.deleted

pub count_between : ℕ → ℕ → List ℕ → ℕ
count_between low high [] = 0
count_between low high (x ∷ xs) =
    (if leb low x && leb x high then 1 else 0) + count_between low high xs

pub range_count : DeleteStore → ℕ → ℕ → ℕ
unfolding count_between
range_count s min_doc_id max_doc_id =
    if ltb max_doc_id min_doc_id then 0 else count_between min_doc_id max_doc_id s.deleted

-- slices.Sort
pub insert_sorted : ℕ → List ℕ → List ℕ
insert_sorted x [] = x ∷ []
insert_sorted x (y ∷ ys) = if leb x y then x ∷ y ∷ ys else y ∷ insert_sorted x ys

pub sort : List ℕ → List ℕ
unfolding insert_sorted
sort [] = []
sort (x ∷ xs) = insert_sorted x (sort xs)

pub id_bytes : List ℕ → List ℕ
id_bytes [] = []
id_bytes (x ∷ xs) = le_bytes 8 x ++ id_bytes xs

-- `WriteSnapshot` up to the file: the bytes that are written.
pub snapshot_bytes : DeleteStore → Result (List ℕ)
snapshot_bytes s =
    let ids = sort s.deleted in
    do
      reject (ltb (max_snapshot_payload / 8) (length ids)) snapshot_too_large
      encode_snapshot delete_snapshot_magic (length ids) (id_bytes ids)

-- index > 0 && docID <= previous
pub not_above : Option ℕ → ℕ → Bool
not_above none doc_id = false
not_above (some previous) doc_id = leb doc_id previous

-- The loop of `LoadDeleteStore` over the IDs that are left; `previous` is none for the first.
pub load_ids : ℕ → Option ℕ → List ℕ → List ℕ → Result (List ℕ)
load_ids zero previous payload deleted = ok deleted
load_ids (suc left) previous payload deleted =
    let doc_id = from_le (take 8 payload) in
    do
      reject (not_above previous doc_id) snapshot_corrupt
      load_ids left (some doc_id) (drop 8 payload) (add doc_id deleted)

-- `LoadDeleteStore` from the file's bytes on. math.MaxInt is 2^63 - 1.
pub load_delete_store : List ℕ → Result DeleteStore
load_delete_store encoded = do
  (counted, payload) ← decode_snapshot encoded delete_snapshot_magic
  reject (ltb (9223372036854775807 / 8) counted || not (counted * 8 == length payload))
      snapshot_corrupt
  ids ← load_ids counted none payload []
  ok (record { deleted = ids })
