-- ===== src/Examples/Keys.antt =====
-- internal/db/primary_map.go and delete_store.go: two keys with locations of their own, and a small
-- set of deleted documents.
use zvec.Base.{
  ◌≢◌, ℕ, ◌+◌, ◌≤◌, ◌<◌, ◌^◌, ◌-◌, ◌≡◌, refl, List, [], ◌∷◌, true, false, not, ◌||◌, ◌==◌, none,
  some, arith, bytes_equal, if◌then◌else◌,
}
use zvec.Errors.{ok, live_ctx}
use zvec.PrimaryMap.{
  new_primary_key_map, DocumentLocation, PrimaryKeyMap, put, get, delete, validate_primary_key,
}
use zvec.Go.Utf8.{valid_string}
use zvec.PrimaryMap.Laws.{IsInjective}
use zvec.PrimaryMap.Injective.{
  Written, put-Written, delete_lem, Reach, created, put_next, get-injective,
}
use zvec.DeleteStore.{
  member, DeleteStore, mark_deleted, restore, is_deleted, count, range_count, snapshot_bytes,
  load_delete_store,
}
use zvec.DeleteStore.Laws.{IsIdSet, mark_deleted_lem, restore_lem, range_count_lem}
use zvec.DeleteStore.RoundTrip.{load-snapshot_bytes}

-- "a" and "b"
abbrev pub key_a : List ℕ
key_a = 0x61 ∷ []

abbrev pub key_b : List ℕ
key_b = 0x62 ∷ []

abbrev pub first_place : DocumentLocation
first_place = record { segment_id = 1; doc_id = 10 }

abbrev pub second_place : DocumentLocation
second_place = record { segment_id = 1; doc_id = 11 }

abbrev pub two_keys : PrimaryKeyMap
two_keys = record { entries = (key_a, first_place) ∷ (key_b, second_place) ∷ [] }

two_keys-IsInjective : IsInjective two_keys
unfolding bytes_equal
two_keys-IsInjective = record {
  one_each = ((refl, tt), (tt, tt));
  disjoint = ((refl, tt), (tt, tt));
}

abbrev third_place : DocumentLocation
third_place = record { segment_id = 1; doc_id = 12 }

abbrev moved : PrimaryKeyMap
moved = record { entries = (key_a, third_place) ∷ (key_b, second_place) ∷ [] }

put_moves : put live_ctx key_a third_place two_keys ≡ ok (moved, some first_place)
unfolding put bytes_equal validate_primary_key valid_string
put_moves = refl

put-Written_example : Written two_keys key_a third_place moved (some first_place)
put-Written_example =
    put-Written live_ctx key_a third_place two_keys moved (some first_place) two_keys-IsInjective
      put_moves

abbrev only_b : PrimaryKeyMap
only_b = record { entries = (key_b, second_place) ∷ [] }

deletes_a : delete live_ctx key_a two_keys ≡ ok (only_b, some first_place)
unfolding delete bytes_equal
deletes_a = refl

delete_lem_example :
    IsInjective only_b
    × (some first_place ≡ get two_keys key_a)
    × ((key : List ℕ) → get only_b key ≡ (if bytes_equal key_a key then none else get two_keys key))
delete_lem_example =
    delete_lem live_ctx key_a two_keys only_b (some first_place) two_keys-IsInjective deletes_a

abbrev only_a : PrimaryKeyMap
only_a = record { entries = (key_a, first_place) ∷ [] }

two_keys-Reach : Reach two_keys
unfolding put new_primary_key_map bytes_equal validate_primary_key valid_string
two_keys-Reach =
    put_next {m = only_a} live_ctx key_b second_place none
      (put_next {m = new_primary_key_map} live_ctx key_a first_place none created refl) refl

moved-Reach : Reach moved
moved-Reach =
    put_next {m = two_keys} live_ctx key_a third_place (some first_place) two_keys-Reach put_moves

keys_differ : key_a ≢ key_b
keys_differ e = absurd (ground arith)

reads_a : get moved key_a ≡ some third_place
unfolding get bytes_equal
reads_a = refl

get-injective_example : get moved key_b ≢ some third_place
get-injective_example = get-injective moved key_a key_b third_place moved-Reach keys_differ reads_a

abbrev three_deleted : DeleteStore
three_deleted = record { deleted = 12 ∷ 3 ∷ 700 ∷ [] }

abbrev four_deleted : DeleteStore
four_deleted = record { deleted = 5 ∷ 12 ∷ 3 ∷ 700 ∷ [] }

abbrev two_deleted : DeleteStore
two_deleted = record { deleted = 12 ∷ 700 ∷ [] }

three_deleted-IsIdSet : IsIdSet three_deleted
unfolding member
three_deleted-IsIdSet = (refl, (refl, (refl, tt)))

marks : mark_deleted live_ctx 5 three_deleted ≡ ok (four_deleted, true)
unfolding mark_deleted
marks = refl

mark_deleted_lem_example :
    IsIdSet four_deleted
    × (true ≡ not (is_deleted three_deleted 5))
    × ((x : ℕ) → is_deleted four_deleted x ≡ 5 == x || is_deleted three_deleted x)
    × (count four_deleted ≡ count three_deleted + (if is_deleted three_deleted 5 then 0 else 1))
mark_deleted_lem_example =
    mark_deleted_lem live_ctx 5 three_deleted four_deleted true three_deleted-IsIdSet marks

restores : restore live_ctx 3 three_deleted ≡ ok (two_deleted, true)
unfolding restore
restores = refl

restore_lem_example :
    IsIdSet two_deleted
    × (true ≡ is_deleted three_deleted 3)
    × ((x : ℕ) → is_deleted two_deleted x ≡ (if 3 == x then false else is_deleted three_deleted x))
restore_lem_example =
    restore_lem live_ctx 3 three_deleted two_deleted true three_deleted-IsIdSet restores

range_count_lem_example :
    ((low middle high : ℕ)
      → low ≤ middle
      → middle < high
      → range_count three_deleted low middle + range_count three_deleted (middle + 1) high
        ≡ range_count three_deleted low high)
    × ((low high : ℕ) → high < low → range_count three_deleted low high ≡ 0)
    × (range_count three_deleted 0 (2 ^ 64 - 1) ≡ count three_deleted)
range_count_lem_example =
    range_count_lem three_deleted (omega arith, (omega arith, (omega arith, tt)))

load-snapshot_bytes_example :
    (bytes : List ℕ) × (s' : DeleteStore) × (snapshot_bytes three_deleted ≡ ok bytes)
    × (load_delete_store bytes ≡ ok s')
    × IsIdSet s'
    × ((x : ℕ) → is_deleted s' x ≡ is_deleted three_deleted x)
load-snapshot_bytes_example =
    load-snapshot_bytes three_deleted three_deleted-IsIdSet
      (omega arith, (omega arith, (omega arith, tt))) (unfold count in omega arith)
