-- ===== src/DeleteStore/RoundTrip.antt =====
-- internal/db/delete_store.go: writing and loading the snapshot of the deleted documents.
use zvec.Base.{
  ℕ, suc, ◌*◌, ◌≤◌, ◌<◌, ◌^◌, ◌≡◌, refl, List, [], ◌∷◌, ◌++◌, false, ◌||◌, Option, none, some,
  length, length-append, le_bytes, from_le-le_bytes, ◌==◌, arith, All,
}
use zvec.Errors.{ok}
use zvec.Snapshot.{decode_snapshot, encode_snapshot, snapshot_header}
use zvec.Snapshot.RoundTrip.{decode-encode_snapshot}
use zvec.DeleteStore.{
  DeleteStore, member, add, is_deleted, count, insert_sorted, sort, id_bytes, snapshot_bytes,
  not_above, load_ids, load_delete_store, delete_snapshot_magic,
}
use zvec.DeleteStore.Laws.{Distinct, IsIdSet, member-add}

abbrev IsWord : ℕ → Type 0
IsWord x = x < 2 ^ 64

abbrev Above : Option ℕ → ℕ → Type 0
Above none x = Unit {0}
Above (some p) x = p < x

-- Strictly ascending, from above `previous` on.
abbrev Ascending : Option ℕ → List ℕ → Type 0
Ascending previous [] = Unit {0}
Ascending previous (x ∷ xs) = Above previous x × Ascending (some x) xs

Ascending-insert :
    (previous : Option ℕ) (x : ℕ) (ys : List ℕ)
    → Above previous x
    → member x ys ≡ false
    → Ascending previous ys
    → Ascending previous (insert_sorted x ys)
unfolding insert_sorted member
Ascending-insert previous x [] a n h = (a, tt)
Ascending-insert previous x (y ∷ ys) a n (b, h) = ground (arith, Ascending-insert (some y) x ys)

member-insert : (x z : ℕ) (ys : List ℕ) → member z (insert_sorted x ys) ≡ x == z || member z ys
unfolding insert_sorted member
member-insert x z [] = ground arith
member-insert x z (y ∷ ys) = ground (arith, member-insert x z ys)

member-sort : (z : ℕ) (xs : List ℕ) → member z (sort xs) ≡ member z xs
unfolding sort member
member-sort z [] = refl
member-sort z (x ∷ xs) = ground (arith, member-insert x z (sort xs), member-sort z xs)

Ascending-sort : (xs : List ℕ) → Distinct xs → Ascending none (sort xs)
unfolding sort
Ascending-sort [] d = tt
Ascending-sort (x ∷ xs) (n, d) =
    Ascending-insert none x (sort xs) tt (ground (arith, member-sort x xs)) (Ascending-sort xs d)

length-insert_sorted : (x : ℕ) (ys : List ℕ) → length (insert_sorted x ys) ≡ suc (length ys)
unfolding insert_sorted
length-insert_sorted x [] = refl
length-insert_sorted x (y ∷ ys) = ground (arith, length-insert_sorted x ys)

length-sort : (xs : List ℕ) → length (sort xs) ≡ length xs
unfolding sort
length-sort [] = refl
length-sort (x ∷ xs) = omega (arith, length-insert_sorted x (sort xs), length-sort xs)

words-insert : (x : ℕ) (ys : List ℕ) → IsWord x → All IsWord ys → All IsWord (insert_sorted x ys)
unfolding insert_sorted
words-insert x [] hx h = (hx, tt)
words-insert x (y ∷ ys) hx (hy, h) = ground (arith, words-insert x ys hx h)

words-sort : (xs : List ℕ) → All IsWord xs → All IsWord (sort xs)
unfolding sort
words-sort [] h = tt
words-sort (x ∷ xs) (hx, h) = words-insert x (sort xs) hx (words-sort xs h)

length-id_bytes : (xs : List ℕ) → length (id_bytes xs) ≡ length xs * 8
unfolding id_bytes
length-id_bytes [] = refl
length-id_bytes (x ∷ xs) =
    omega (arith, length-append (le_bytes 8 x) (id_bytes xs), length-id_bytes xs)

-- What loading ascending IDs adds to a set.
record Loaded (ids before after : List ℕ) : Type 0 where
  members : (z : ℕ) → member z after ≡ member z ids || member z before
  distinct : Distinct before → Distinct after

collect : List ℕ → List ℕ → List ℕ
collect [] deleted = deleted
collect (x ∷ xs) deleted = collect xs (add x deleted)

not_above_lem : (previous : Option ℕ) (x : ℕ) → Above previous x → not_above previous x ≡ false
unfolding not_above
not_above_lem none x h = refl
not_above_lem (some p) x h = ground arith

load_ids-id_bytes :
    (ids : List ℕ) (previous : Option ℕ) (deleted : List ℕ)
    → Ascending previous ids
    → All IsWord ids
    → load_ids (length ids) previous (id_bytes ids) deleted ≡ ok (collect ids deleted)
unfolding load_ids id_bytes collect
load_ids-id_bytes [] previous deleted a h = refl
load_ids-id_bytes (x ∷ xs) previous deleted (b, a) (hx, h) =
    rw (from_le-le_bytes 8 x (omega arith), not_above_lem previous x b)
      (load_ids-id_bytes xs (some x) (add x deleted) a h)

Distinct-add : (x : ℕ) (xs : List ℕ) → Distinct xs → Distinct (add x xs)
unfolding add
Distinct-add x xs d = ground arith

collect-Loaded : (ids deleted : List ℕ) → Loaded ids deleted (collect ids deleted)
unfolding collect member
collect-Loaded [] deleted = record { members = λ z. refl; distinct = λ d. d }
collect-Loaded (x ∷ xs) deleted =
    let l = collect-Loaded xs (add x deleted) in
    record {
      members = λ z. ground (arith, l.members z, member-add x z deleted);
      distinct = λ d. l.distinct (Distinct-add x deleted d);
    }

-- Writing a set of at most 2^25 IDs of 64 bits succeeds, and loading the bytes succeeds and gives a
-- set with the same members, whatever the order in which the IDs were marked.
pub load-snapshot_bytes :
    (s : DeleteStore)
    → IsIdSet s
    → All IsWord s.deleted
    → count s ≤ 2 ^ 25
    → (bytes : List ℕ) × (s' : DeleteStore) × (snapshot_bytes s ≡ ok bytes)
      × (load_delete_store bytes ≡ ok s')
      × IsIdSet s'
      × ((x : ℕ) → is_deleted s' x ≡ is_deleted s x)
unfolding snapshot_bytes load_delete_store is_deleted count
load-snapshot_bytes s d w small = (
  snapshot_header delete_snapshot_magic (length ids) (id_bytes ids) ++ id_bytes ids,
  record { deleted = collect ids [] },
  ground (arith, envelope, length-sort s.deleted),
  ground (
    arith,
    envelope,
    length-sort s.deleted,
    length-id_bytes ids,
    load_ids-id_bytes ids none [] (Ascending-sort s.deleted d) (words-sort s.deleted w),
  ),
  loaded.distinct tt,
  λ x. ground (arith, loaded.members x, member-sort x s.deleted),
)
  where
    ids : List ℕ
    ids = sort s.deleted

    loaded : Loaded ids [] (collect ids [])
    loaded = collect-Loaded ids []

    envelope :
        (encode_snapshot delete_snapshot_magic (length ids) (id_bytes ids)
          ≡ ok (snapshot_header delete_snapshot_magic (length ids) (id_bytes ids) ++ id_bytes ids))
        × (decode_snapshot
              (snapshot_header delete_snapshot_magic (length ids) (id_bytes ids) ++ id_bytes ids)
              delete_snapshot_magic
            ≡ ok (length ids, id_bytes ids))
    envelope =
        decode-encode_snapshot 0x5a 0x56 0x45 0x43 0x44 0x45 0x4c 0 (length ids) (id_bytes ids)
          (omega (arith, length-sort s.deleted))
          (omega (arith, length-sort s.deleted, length-id_bytes ids))
