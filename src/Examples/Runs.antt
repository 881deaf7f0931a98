-- ===== src/Examples/Runs.antt =====
-- Runs of the operations that the theorems do not reach by themselves, on small inputs.
use zvec.Base.{some, bytes_equal, ◌≡◌, refl, [], ◌∷◌, true, false, none}
use zvec.Errors.{live_ctx, ok, err, wal_poisoned, sync_failed, primary_key_exists}
use zvec.Wal.Handle.{create_wal, close}
use zvec.PrimaryMap.{multi_get, validate_primary_key, new_primary_key_map, get}
use zvec.DeleteStore.{new_delete_store}
use zvec.Manager.{
  saturating_add, saturating_multiply_by_eight, new_segment_manager, document_by_primary_key,
  is_some,
}
use zvec.Engine.{result_of, cancelled_result, failed}
use zvec.Examples.Keys.{key_a, key_b, two_keys, first_place, second_place}
use zvec.Examples.Segments.{full_segment, half_segment, document_b}
use zvec.Go.Utf8.{valid_string}
use zvec.PrimaryMap
use zvec.Segment
use zvec.Segment.{append_document, stored_documents_memory_bytes, metadata_of, segment_metadata}

-- Closing a poisoned log reports it, and does not sync.
close_poisoned : close false true (record (create_wal 0) { poisoned = true; dirty_records = 3 }) ≡ (
  record (create_wal 0) { poisoned = true; dirty_records = 3; closed = true },
  err wal_poisoned,
)
unfolding close create_wal
close_poisoned = refl

-- Closing a log with unsynced records reports that the sync failed.
close_unsynced :
    close false true (record (create_wal 0) { dirty_records = 3 })
    ≡ (record (create_wal 0) { dirty_records = 3; closed = true }, err sync_failed)
unfolding close create_wal
close_unsynced = refl

-- The results of a batch, one of three of which failed.
failed_one : failed (result_of key_a (ok 4) ∷ result_of key_b (err primary_key_exists) ∷ []) ≡ 1
unfolding failed result_of is_some
failed_one = refl

failed_cancelled : failed (cancelled_result key_a ∷ cancelled_result key_b ∷ []) ≡ 2
unfolding failed cancelled_result is_some
failed_cancelled = refl

-- A new manager finds nothing.
new_manager_empty :
    document_by_primary_key key_a (new_segment_manager new_primary_key_map new_delete_store) ≡ none
unfolding document_by_primary_key new_segment_manager new_primary_key_map new_delete_store get
new_manager_empty = refl

-- Locations come back in the order of the keys that were asked for.
locations_in_order :
    multi_get two_keys (key_b ∷ [] ∷ key_a ∷ []) ≡ some second_place ∷ none ∷ some first_place ∷ []
unfolding multi_get get bytes_equal
locations_in_order = refl

counted_keys : PrimaryMap.count two_keys ≡ 2
unfolding PrimaryMap.count
counted_keys = refl

-- Sizes stop at the top of uint64.
saturated :
    (saturating_add 18446744073709551615 5 ≡ 18446744073709551615)
    × (saturating_add 3 5 ≡ 8)
    × (saturating_multiply_by_eight 2305843009213693952 ≡ 18446744073709551615)
    × (saturating_multiply_by_eight 7 ≡ 56)
unfolding saturating_add saturating_multiply_by_eight
saturated = (refl, refl, refl, refl)

memory_of_two : stored_documents_memory_bytes 0 full_segment.docs ≡ 52
unfolding stored_documents_memory_bytes
memory_of_two = refl

metadata_of_two :
    metadata_of full_segment
    ≡ record { id = 1; min_doc_id = 10; max_doc_id = 11; doc_count = 2; files = [] }
unfolding metadata_of segment_metadata
metadata_of_two = refl

-- `Append` numbers the document itself.
appended_b : Segment.append live_ctx key_b [] half_segment ≡ ok (full_segment, document_b)
unfolding Segment.append append_document validate_primary_key valid_string
appended_b = refl
