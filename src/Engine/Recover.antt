-- ===== src/Engine/Recover.antt =====
-- internal/db/collection.go: what a replayed operation does to the manager. The three changes that it
-- is made of are the ones that the engine makes.
use zvec.Base.{ℕ, List, Bool, true, false, not, Option, none, some, length, ltb, ◌==◌, ◌&&◌}
use zvec.Errors.{
  Result, ok, err, ◌>>=◌, ◌>>◌, reject, wrap, Context, wal_corrupt, primary_key_exists,
  primary_key_not_found, no_writing_segment, wrong_segment, delete_with_payload,
}
use zvec.Wal.Scan.{WalRecord}
use zvec.PrimaryMap
use zvec.PrimaryMap.{DocumentLocation, same_location}
use zvec.DeleteStore
use zvec.Segment.{WriteSegment, append_expected}
use zvec.Manager.{SegmentManager, is_some}
use zvec.Operation.{
  WriteOperation, WriteOperationType, insert, upsert, update, delete, decode_write_operation,
}

-- `writing.AppendExpected`, which changes the segment that the manager holds.
unfoldable pub append_to_writing :
    Context → ℕ → List ℕ → List ℕ → SegmentManager → Result SegmentManager
append_to_writing ctx doc_id primary_key payload m = elim m.writing [
  | none ↦ err no_writing_segment
  | some w ↦
      append_expected ctx doc_id primary_key payload w >>= λ p. ok (record m { writing = some p.0 })
]

-- `Deletes().MarkDeleted`
unfoldable pub mark_deleted : Context → ℕ → SegmentManager → Result SegmentManager
mark_deleted ctx doc_id m =
    DeleteStore.mark_deleted ctx doc_id m.deletes >>= λ p. ok (record m { deletes = p.0 })

-- `PrimaryKeys().Put`
unfoldable pub put_key :
    Context → List ℕ → DocumentLocation → SegmentManager → Result SegmentManager
put_key ctx key location m =
    PrimaryMap.put ctx key location m.primary_key >>= λ p. ok (record m { primary_key = p.0 })

-- `if existed { … MarkDeleted(previous.DocID) … }`
unfoldable pub delete_previous :
    Context → Option DocumentLocation → SegmentManager → Result SegmentManager
delete_previous ctx none m = ok m
delete_previous ctx (some previous) m = mark_deleted ctx previous.doc_id m

-- `PrimaryKeys().Delete`; an absent key is an error of the caller.
unfoldable pub delete_key : Context → List ℕ → SegmentManager → Result SegmentManager
delete_key ctx key m = do
  (keys, removed) ← PrimaryMap.delete ctx key m.primary_key
  reject (not (is_some removed)) primary_key_not_found
  ok (record m { primary_key = keys })

-- `writing == nil || operation.SegmentID != writing.ID()`
wrong_writing : ℕ → Option WriteSegment → Bool
wrong_writing segment_id none = true
wrong_writing segment_id (some w) = not (segment_id == w.id)

elsewhere : DocumentLocation → Option DocumentLocation → Bool
elsewhere location none = true
elsewhere location (some l) = not (same_location l location)

apply_put : Context → Bool → WriteOperation → SegmentManager → Result SegmentManager
apply_put ctx must_exist o m =
    let previous = PrimaryMap.get m.primary_key o.primary_key in
    do
      reject (wrong_writing o.segment_id m.writing) wrong_segment
      reject (must_exist && not (is_some previous)) primary_key_not_found
      appended ← append_to_writing ctx o.doc_id o.primary_key o.payload m
      marked ← delete_previous ctx previous appended
      put_key ctx o.primary_key (record { segment_id = o.segment_id; doc_id = o.doc_id }) marked

apply_insert : Context → WriteOperation → SegmentManager → Result SegmentManager
apply_insert ctx o m = do
  reject (wrong_writing o.segment_id m.writing) wrong_segment
  reject (is_some (PrimaryMap.get m.primary_key o.primary_key)) primary_key_exists
  appended ← append_to_writing ctx o.doc_id o.primary_key o.payload m
  put_key ctx o.primary_key (record { segment_id = o.segment_id; doc_id = o.doc_id }) appended

apply_delete : Context → WriteOperation → SegmentManager → Result SegmentManager
apply_delete ctx o m =
    let location : DocumentLocation = record { segment_id = o.segment_id; doc_id = o.doc_id } in
    do
      reject (ltb 0 (length o.payload)) delete_with_payload
      reject (elsewhere location (PrimaryMap.get m.primary_key o.primary_key)) primary_key_not_found
      marked ← mark_deleted ctx o.doc_id m
      delete_key ctx o.primary_key marked

apply_as : WriteOperationType → Context → WriteOperation → SegmentManager → Result SegmentManager
apply_as insert = apply_insert
apply_as upsert = λ ctx. apply_put ctx false
apply_as update = λ ctx. apply_put ctx true
apply_as delete = apply_delete

unfoldable pub apply_recovered_operation :
    Context → WriteOperation → SegmentManager → Result SegmentManager
unfolding apply_as apply_insert apply_put apply_delete wrong_writing elsewhere
apply_recovered_operation ctx o m = apply_as o.operation_type ctx o m

-- The function that `replayWriteWAL` hands to `Replay`.
unfoldable pub recover_record : Context → WalRecord → SegmentManager → Result SegmentManager
recover_record ctx found m = do
  operation ← wrap wal_corrupt (decode_write_operation found.payload)
  wrap wal_corrupt (apply_recovered_operation ctx operation m)
