-- ===== src/Engine.antt =====
-- internal/db/write_engine.go: the engine that logs a mutation, makes it durable and applies it.
-- A method changes an `Engine`; what it has changed stays when a later step fails.
pub mod Run
pub mod Recover
pub mod Replays
pub mod Deletes
pub mod Durability
pub mod Sequences
pub mod Reopen
pub mod Unapplied
pub mod Batch
use Run.{Mutation, Engine, lift, fail_if, read, on_wal, on_manager, ◌>>=◌, ◌>>◌, pure}
use zvec.Base.{
  ℕ, suc, ◌+◌, map, List, [], ◌∷◌, Bool, true, false, not, Option, none, some, length, ltb,
  if◌then◌else◌,
}
use zvec.Errors.{
  Error, Result, ok, err, Context, live_ctx, done_ctx, nil_ctx, nil_context, empty_batch, cancelled,
  payload_too_large, primary_key_exists, primary_key_not_found, no_writing_segment, map_changed,
}
use zvec.Wal.Handle.{Wal, WriteAnswer}
use zvec.Wal.Handle
use zvec.PrimaryMap
use zvec.PrimaryMap.{DocumentLocation, validate_primary_key, same_location}
use zvec.DeleteStore
use zvec.Segment.{WriteSegment, next_document_id, append_expected, max_document_payload_size}
use zvec.Manager.{SegmentManager, is_some}
use zvec.Operation.{
  WriteOperation, WriteOperationType, insert, upsert, update, delete, encode_write_operation,
}
use Recover.{append_to_writing, delete_previous, mark_deleted, put_key}

pub record WriteInput : Type 0 where
  pub primary_key : List ℕ
  pub payload : List ℕ

-- What one write meets: the context and the disk at its append, and at its sync.
pub record Answers : Type 0 where
  pub append_ctx : Context
  pub write : WriteAnswer
  pub sync_ctx : Context
  pub sync_ok : Bool

-- `e.wal.Append`, then `e.wal.Sync`
unfoldable pub log_operation : Answers → List ℕ → Mutation (Unit {0})
log_operation answers encoded = do
  lsn ← on_wal (Handle.append answers.write answers.append_ctx encoded)
  on_wal (Handle.sync answers.sync_ok answers.sync_ctx)

current_writing : SegmentManager → Result WriteSegment
current_writing m = elim m.writing [ none ↦ err no_writing_segment | some w ↦ ok w ]

check_payload : List ℕ → Mutation (Unit {0})
check_payload payload = fail_if (ltb max_document_payload_size (length payload)) payload_too_large

unfoldable pub insert_one : Answers → WriteInput → Mutation ℕ
unfolding current_writing check_payload
insert_one answers input = do
  lift (validate_primary_key input.primary_key)
  check_payload input.payload
  existing ← read (λ m. ok (PrimaryMap.get m.primary_key input.primary_key))
  fail_if (is_some existing) primary_key_exists
  writing ← read current_writing
  doc_id ← lift (next_document_id writing)
  encoded ← lift (
      encode_write_operation (record {
        operation_type = insert;
        segment_id = writing.id;
        doc_id = doc_id;
        primary_key = input.primary_key;
        payload = input.payload;
      }))
  log_operation answers encoded
  on_manager (append_to_writing live_ctx doc_id input.primary_key input.payload)
  on_manager
      (put_key live_ctx input.primary_key (record { segment_id = writing.id; doc_id = doc_id }))
  pure doc_id

unfoldable pub upsert_one : Answers → WriteInput → Mutation ℕ
unfolding current_writing check_payload
upsert_one answers input = do
  lift (validate_primary_key input.primary_key)
  check_payload input.payload
  previous ← read (λ m. ok (PrimaryMap.get m.primary_key input.primary_key))
  writing ← read current_writing
  doc_id ← lift (next_document_id writing)
  encoded ← lift (
      encode_write_operation (record {
        operation_type = upsert;
        segment_id = writing.id;
        doc_id = doc_id;
        primary_key = input.primary_key;
        payload = input.payload;
      }))
  log_operation answers encoded
  on_manager (append_to_writing live_ctx doc_id input.primary_key input.payload)
  on_manager (delete_previous live_ctx previous)
  on_manager
      (put_key live_ctx input.primary_key (record { segment_id = writing.id; doc_id = doc_id }))
  pure doc_id

unfoldable pub update_one : Answers → WriteInput → Mutation ℕ
unfolding current_writing check_payload
update_one answers input = do
  lift (validate_primary_key input.primary_key)
  check_payload input.payload
  previous ← read (λ m. ok (PrimaryMap.get m.primary_key input.primary_key))
  fail_if (not (is_some previous)) primary_key_not_found
  writing ← read current_writing
  doc_id ← lift (next_document_id writing)
  encoded ← lift (
      encode_write_operation (record {
        operation_type = update;
        segment_id = writing.id;
        doc_id = doc_id;
        primary_key = input.primary_key;
        payload = input.payload;
      }))
  log_operation answers encoded
  on_manager (append_to_writing live_ctx doc_id input.primary_key input.payload)
  on_manager (delete_previous live_ctx previous)
  on_manager
      (put_key live_ctx input.primary_key (record { segment_id = writing.id; doc_id = doc_id }))
  pure doc_id

-- `PrimaryKeys().Delete` and the test `!found || removed != location`.
delete_key_at : Context → List ℕ → DocumentLocation → SegmentManager → Result SegmentManager
delete_key_at ctx key location m = elim (PrimaryMap.delete ctx key m.primary_key) [
  | err e ↦ err e
  | ok (keys, none) ↦ err map_changed
  | ok (keys, some removed) ↦
      if same_location removed location
      then ok (record m { primary_key = keys })
      else err map_changed
]

location_of : List ℕ → SegmentManager → Result DocumentLocation
location_of key m = elim (PrimaryMap.get m.primary_key key) [
  | none ↦ err primary_key_not_found
  | some location ↦ ok location
]

unfoldable pub delete_one : Answers → List ℕ → Mutation ℕ
unfolding delete_key_at location_of
delete_one answers primary_key = do
  lift (validate_primary_key primary_key)
  location ← read (location_of primary_key)
  encoded ← lift (
      encode_write_operation (record {
        operation_type = delete;
        segment_id = location.segment_id;
        doc_id = location.doc_id;
        primary_key = primary_key;
        payload = [];
      }))
  log_operation answers encoded
  on_manager (mark_deleted live_ctx location.doc_id)
  on_manager (delete_key_at live_ctx primary_key location)
  pure location.doc_id

pub record WriteResult : Type 0 where
  pub primary_key : List ℕ
  pub doc_id : ℕ
  pub error : Option Error

unfoldable pub result_of : List ℕ → Result ℕ → WriteResult
result_of key (ok doc_id) = record { primary_key = key; doc_id = doc_id; error = none }
result_of key (err e) = record { primary_key = key; doc_id = 0; error = some e }

unfoldable pub cancelled_result : List ℕ → WriteResult
cancelled_result key = record { primary_key = key; doc_id = 0; error = some cancelled }

-- The loop that `Insert`, `Upsert`, `Update` and `Delete` share: `done n` tells whether the context is
-- done at the poll for input `n`, and then the inputs that are left fail with it.
run_batch :
    {I : Type 0}
    → (I → List ℕ)
    → (ℕ → I → Mutation ℕ)
    → (ℕ → Bool)
    → ℕ
    → List I
    → Engine
    → Engine × List WriteResult
run_batch key_of one done index [] e = (e, [])
run_batch key_of one done index (input ∷ inputs) e =
    let (e', r) = one index input e in
    let rest = run_batch key_of one done (suc index) inputs e' in
    if done index
    then (e, map (λ i. cancelled_result (key_of i)) (input ∷ inputs))
    else (rest.0, result_of (key_of input) r ∷ rest.1)

abbrev key_of_input : WriteInput → List ℕ
key_of_input i = i.primary_key

abbrev key_itself : List ℕ → List ℕ
key_itself key = key

is_nil : Context → Bool
is_nil nil_ctx = true
is_nil done_ctx = false
is_nil live_ctx = false

is_done : Context → Bool
is_done nil_ctx = false
is_done done_ctx = true
is_done live_ctx = false

is_empty : {I : Type 0} → List I → Bool
is_empty [] = true
is_empty (i ∷ inputs) = false

-- A nil context and an empty batch are refused; `ctx n` is the context as the poll for input `n` finds it.
unfoldable pub batch :
    {I : Type 0}
    → (I → List ℕ)
    → (ℕ → I → Mutation ℕ)
    → (ℕ → Context)
    → List I
    → Engine
    → Engine × Result (List WriteResult)
unfolding run_batch is_nil is_done is_empty
batch key_of one ctx inputs e =
    let run = run_batch key_of one (λ n. is_done (ctx n)) 0 inputs e in
    if is_nil (ctx 0)
    then (e, err nil_context)
    else if is_empty inputs
    then (e, err empty_batch)
    else (run.0, ok run.1)

unfoldable pub insert_batch :
    (ℕ → Answers) → (ℕ → Context) → List WriteInput → Engine → Engine × Result (List WriteResult)
unfolding batch
insert_batch answers = batch key_of_input (λ n. insert_one (answers n))

unfoldable pub upsert_batch :
    (ℕ → Answers) → (ℕ → Context) → List WriteInput → Engine → Engine × Result (List WriteResult)
unfolding batch
upsert_batch answers = batch key_of_input (λ n. upsert_one (answers n))

unfoldable pub update_batch :
    (ℕ → Answers) → (ℕ → Context) → List WriteInput → Engine → Engine × Result (List WriteResult)
unfolding batch
update_batch answers = batch key_of_input (λ n. update_one (answers n))

unfoldable pub delete_batch :
    (ℕ → Answers) → (ℕ → Context) → List (List ℕ) → Engine → Engine × Result (List WriteResult)
unfolding batch
delete_batch answers = batch key_itself (λ n. delete_one (answers n))

-- The count of failed inputs, `BatchWriteError.Failed`.
unfoldable pub failed : List WriteResult → ℕ
failed [] = 0
failed (r ∷ results) = (if is_some r.error then 1 else 0) + failed results
