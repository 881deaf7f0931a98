-- ===== src/Examples/Writes.antt =====
-- internal/db/write_engine.go: an engine over an empty log and an empty write segment, a write that it
-- acknowledges, and an insert whose sync is cancelled.
use zvec.Base.{
  ℕ, zero, suc, ◌+◌, ◌<◌, ◌^◌, ◌≡◌, refl, List, [], ◌∷◌, ◌++◌, true, false, none, some, arith,
  bytes_equal,
}
use zvec.Errors.{
  Result, ok, err, Context, live_ctx, done_ctx, wal_corrupt, cancelled, primary_key_exists,
  primary_key_not_found,
}
use zvec.Go.Utf8.{valid_string}
use zvec.PrimaryMap.{validate_primary_key, get, put}
use zvec.PrimaryMap
use zvec.DeleteStore
use zvec.DeleteStore.{is_deleted, member}
use zvec.Segment.{document, WriteSegment, next_document_id, append_expected, append_document}
use zvec.Manager.{SegmentManager, is_some, fetch, document_by_primary_key, document_in}
use zvec.Wal.Codec.{encode_wal_file_header, encode_wal_record, record_header}
use zvec.Wal.Handle.{append, sync, check_append, write_record}
use zvec.Wal.Handle.Invariant.{IsLog, IsTorn-clean}
use zvec.Wal.Handle.Append.{reopened}
use zvec.Wal.Handle.Replay.{apply_all}
use zvec.Wal.Scan.Records.{log_file, log_records}
use zvec.Operation.{
  WriteOperation, upsert, operation_bytes, operation_header, encode_write_operation,
  decode_write_operation,
}
use zvec.Operation.RoundTrip.{IsOperation, decode-encode_write_operation}
use zvec.Engine.{
  Answers, WriteInput, WriteResult, insert_one, batch, cancelled_result, log_operation, upsert_one,
  update_one, delete_one, insert_batch, upsert_batch, update_batch, delete_batch, result_of,
}
use zvec.Engine.Run.{Engine}
use zvec.Engine.Recover.{recover_record, append_to_writing, put_key, mark_deleted, delete_previous}
use zvec.Engine.Replays.{HasWords}
use zvec.Engine.Batch.{write_each, batch_lem}
use zvec.Engine.Durability.{Recoverable, insert_of, run_write, run_write-Recoverable}
use zvec.Engine.Unapplied.{HoldsTwice, unapplied_insert-Corrupt}
use zvec.Examples.Keys.{key_a, key_b}

abbrev fresh : WriteSegment
fresh = record { id = 1; min_doc_id = 0; max_docs = 100; docs = []; sealed = false }

abbrev pub base : SegmentManager
base = record {
  immutable = [];
  writing = some fresh;
  primary_key = record { entries = [] };
  deletes = record { deleted = [] };
}

abbrev pub engine : Engine
engine = record { manager = base; wal = reopened 0 [] 0 }

no_log : IsLog (reopened 0 [] 0) []
unfolding reopened log_file log_records encode_wal_file_header
no_log = record {
  sized = refl;
  numbered = refl;
  int64 = omega arith;
  fitting = tt;
  torn = IsTorn-clean [] key_a (omega arith, omega arith);
  clean = λ e. refl;
}

pub engine-Recoverable : Recoverable base engine []
unfolding apply_all
engine-Recoverable = record { log = no_log; rebuilt = refl }

pub base-HasWords : HasWords base
unfolding get
base-HasWords = record { writing_word = λ w e. ground arith; location_words = λ key l e. cc }

abbrev pub answers : Answers
answers = record {
  append_ctx = live_ctx;
  write = record { written = 0; write_ok = true; sync_ok = true };
  sync_ctx = live_ctx;
  sync_ok = true;
}

-- The context is done between the append and the sync.
abbrev cancelled_answers : Answers
cancelled_answers = record answers { sync_ctx = done_ctx }

abbrev pub input_a : WriteInput
input_a = record { primary_key = key_a; payload = 1 ∷ 2 ∷ [] }

abbrev input_b : WriteInput
input_b = record { primary_key = key_b; payload = 3 ∷ [] }

room : engine.wal.size + 134349066 < 2 ^ 63
unfolding reopened log_file log_records encode_wal_file_header
room = omega arith

inserts_a :
    run_write answers (insert_of input_a) engine
    ≡ ((run_write answers (insert_of input_a) engine).0, ok 0)
unfolding run_write insert_one log_operation encode_write_operation operation_bytes operation_header
    validate_primary_key valid_string get is_some next_document_id append sync check_append
    write_record append_to_writing append_expected append_document put_key put reopened
    encode_wal_record record_header
inserts_a = refl

run_write-Recoverable_example :
    (o : WriteOperation) × Recoverable base
      (run_write answers (insert_of input_a) engine).0
      ([] ++ (operation_bytes o ∷ []))
run_write-Recoverable_example =
    run_write-Recoverable base answers (insert_of input_a) engine
      (run_write answers (insert_of input_a) engine).0 0 [] engine-Recoverable base-HasWords
      (omega (arith, room)) inserts_a

abbrev left : Engine
left = (insert_one cancelled_answers input_a engine).0

fails_a : insert_one cancelled_answers input_a engine ≡ (left, err cancelled)
unfolding run_write insert_one log_operation encode_write_operation operation_bytes operation_header
    validate_primary_key valid_string get is_some next_document_id append sync check_append
    write_record append_to_writing append_expected append_document put_key put reopened
    encode_wal_record record_header
fails_a = refl

grew : left.wal.last_lsn ≡ engine.wal.last_lsn + 1
unfolding run_write insert_one log_operation encode_write_operation operation_bytes operation_header
    validate_primary_key valid_string get is_some next_document_id append sync check_append
    write_record append_to_writing append_expected append_document put_key put reopened
    encode_wal_record record_header
grew = refl

same : left.manager ≡ engine.manager
unfolding run_write insert_one log_operation encode_write_operation operation_bytes operation_header
    validate_primary_key valid_string get is_some next_document_id append sync check_append
    write_record append_to_writing append_expected append_document put_key put reopened
    encode_wal_record record_header
same = refl

inserts_b : insert_one answers input_b left ≡ ((insert_one answers input_b left).0, ok 0)
unfolding run_write insert_one log_operation encode_write_operation operation_bytes operation_header
    validate_primary_key valid_string get is_some next_document_id append sync check_append
    write_record append_to_writing append_expected append_document put_key put reopened
    encode_wal_record record_header
inserts_b = refl

unapplied_insert-Corrupt_example :
    (payloads : List (List ℕ)) × IsLog (insert_one answers input_b left).0.wal payloads
    × HoldsTwice [] payloads input_a input_b 0
    × (apply_all (recover_record live_ctx) 1 payloads base ≡ err wal_corrupt)
unapplied_insert-Corrupt_example =
    unapplied_insert-Corrupt base cancelled_answers answers input_a input_b engine left
      (insert_one answers input_b left).0 cancelled 0 [] engine-Recoverable base-HasWords room
      fails_a grew same inserts_b

-- Live at the first poll, and done from then on.
abbrev live_once : ℕ → Context
live_once zero = live_ctx
live_once (suc n) = done_ctx

abbrev key_of : WriteInput → List ℕ
key_of i = i.primary_key

live_first : (k : ℕ) → k < 1 → live_once k ≡ live_ctx
live_first zero h = refl
live_first (suc k) h = absurd (omega arith)

batch_lem_example :
    batch key_of (λ n. insert_one answers) live_once (input_a ∷ input_b ∷ []) engine ≡ (
      (write_each key_of (λ n. insert_one answers) 0 (input_a ∷ []) engine).0,
      ok (
          (write_each key_of (λ n. insert_one answers) 0 (input_a ∷ []) engine).1
          ++ (cancelled_result key_b ∷ [])),
    )
batch_lem_example =
    batch_lem key_of (λ n. insert_one answers) live_once (input_a ∷ input_b ∷ []) 1 engine
      (omega arith) (omega arith) live_first (λ h. refl)

abbrev operation : WriteOperation
operation = record {
  operation_type = upsert;
  segment_id = 1;
  doc_id = 77;
  primary_key = key_a;
  payload = 1 ∷ 2 ∷ [];
}

operation-IsOperation : IsOperation operation
unfolding validate_primary_key valid_string
operation-IsOperation = record {
  segment_word = omega arith;
  document_word = omega arith;
  key_valid = refl;
  payload_fits = omega arith;
}

decode-encode_write_operation_example :
    (encode_write_operation operation ≡ ok (operation_bytes operation))
    × (decode_write_operation (operation_bytes operation) ≡ ok operation)
decode-encode_write_operation_example =
    decode-encode_write_operation operation operation-IsOperation

abbrev inserted : Engine × Result (List WriteResult)
inserted = insert_batch (λ n. answers) (λ n. live_ctx) (input_a ∷ input_b ∷ input_a ∷ []) engine

-- An inserted key cannot be inserted again in the same batch.
inserted_results :
    inserted.1
    ≡ ok (
        record { primary_key = key_a; doc_id = 0; error = none }
        ∷ record { primary_key = key_b; doc_id = 1; error = none }
        ∷ record { primary_key = key_a; doc_id = 0; error = some primary_key_exists }
        ∷ [])
unfolding insert_batch insert_one upsert_one update_one delete_one log_operation
    encode_write_operation operation_bytes operation_header validate_primary_key valid_string get
    is_some next_document_id append sync check_append write_record append_to_writing mark_deleted
    delete_previous append_expected append_document put_key put reopened encode_wal_record
    record_header batch result_of PrimaryMap.delete DeleteStore.mark_deleted bytes_equal
    document_by_primary_key document is_deleted member document_in
inserted_results = refl

upserted_results :
    (upsert_batch (λ n. answers) (λ n. live_ctx) (input_a ∷ []) inserted.0).1
    ≡ ok (record { primary_key = key_a; doc_id = 2; error = none } ∷ [])
unfolding insert_batch upsert_batch insert_one upsert_one update_one delete_one log_operation
    encode_write_operation operation_bytes operation_header validate_primary_key valid_string get
    is_some next_document_id append sync check_append write_record append_to_writing mark_deleted
    delete_previous append_expected append_document put_key put reopened encode_wal_record
    record_header batch result_of PrimaryMap.delete DeleteStore.mark_deleted bytes_equal
    document_by_primary_key document is_deleted member document_in
upserted_results = refl

updated_results :
    (update_batch (λ n. answers) (λ n. live_ctx) (input_b ∷ []) engine).1
    ≡ ok (record { primary_key = key_b; doc_id = 0; error = some primary_key_not_found } ∷ [])
unfolding update_batch insert_one upsert_one update_one delete_one log_operation
    encode_write_operation operation_bytes operation_header validate_primary_key valid_string get
    is_some next_document_id append sync check_append write_record append_to_writing mark_deleted
    delete_previous append_expected append_document put_key put reopened encode_wal_record
    record_header batch result_of PrimaryMap.delete DeleteStore.mark_deleted bytes_equal
    document_by_primary_key document is_deleted member document_in
updated_results = refl

abbrev deleted : Engine × Result (List WriteResult)
deleted = delete_batch (λ n. answers) (λ n. live_ctx) (key_a ∷ []) inserted.0

deleted_results : deleted.1 ≡ ok (record { primary_key = key_a; doc_id = 0; error = none } ∷ [])
unfolding insert_batch delete_batch insert_one upsert_one update_one delete_one log_operation
    encode_write_operation operation_bytes operation_header validate_primary_key valid_string get
    is_some next_document_id append sync check_append write_record append_to_writing mark_deleted
    delete_previous append_expected append_document put_key put reopened encode_wal_record
    record_header batch result_of PrimaryMap.delete DeleteStore.mark_deleted bytes_equal
    document_by_primary_key document is_deleted member document_in
deleted_results = refl

-- A deleted document is not fetched.
fetched : fetch (λ n. false) (key_a ∷ key_b ∷ []) deleted.0.manager ≡ (
  record { primary_key = key_a; found = none; error = none }
      ∷ record {
        primary_key = key_b;
        found = some (record { doc_id = 1; primary_key = key_b; payload = 3 ∷ [] });
        error = none;
      }
      ∷ [],
  none,
)
unfolding insert_batch delete_batch fetch insert_one upsert_one update_one delete_one log_operation
    encode_write_operation operation_bytes operation_header validate_primary_key valid_string get
    is_some next_document_id append sync check_append write_record append_to_writing mark_deleted
    delete_previous append_expected append_document put_key put reopened encode_wal_record
    record_header batch result_of PrimaryMap.delete DeleteStore.mark_deleted bytes_equal
    document_by_primary_key document is_deleted member document_in
fetched = refl
