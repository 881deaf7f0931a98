-- ===== src/Examples/Sequences.antt =====
-- internal/db/write_engine.go: an insert and then a deletion of the same key.
use zvec.Base.{refl, arith, bytes_equal}
use zvec.Go.Utf8.{valid_string}
use zvec.PrimaryMap
use zvec.PrimaryMap.{validate_primary_key, get, put}
use zvec.DeleteStore
use zvec.DeleteStore.{member}
use zvec.Segment.{next_document_id, append_expected, append_document}
use zvec.Manager.{is_some}
use zvec.Wal.Codec.{encode_wal_file_header, encode_wal_record, record_header}
use zvec.Wal.Handle.{append, sync, check_append, write_record}
use zvec.Wal.Handle.Append.{reopened}
use zvec.Wal.Scan.Records.{log_file, log_records}
use zvec.Operation.{operation_bytes, operation_header, encode_write_operation}
use zvec.Engine.{insert_one, delete_one, log_operation}
use zvec.Engine.Run.{Engine}
use zvec.Engine.Recover.{append_to_writing, put_key, mark_deleted}
use zvec.Engine.Durability.{insert_of, delete_of, run_write}
use zvec.Engine.Sequences.{IsSound, Writes, none_yet, then_write}
use zvec.Base.{false, ◌≡◌}
use zvec.Errors.{ok, live_ctx}
use zvec.Wal.Scan.Recovery.{never}
use zvec.Wal.Handle.{Wal, open_wal, replay}
use zvec.Wal.Handle.Replay.{always_live}
use zvec.Engine.Recover.{recover_record}
use zvec.Engine.Reopen.{Writes-reopen}
use zvec.Examples.Keys.{key_a}
use zvec.Examples.Writes.{base, engine, answers, input_a, engine-Recoverable, base-HasWords}

base-IsSound : IsSound base
base-IsSound = record { words = base-HasWords; keys = record { one_each = tt; disjoint = tt } }

abbrev after_insert : Engine
after_insert = (run_write answers (insert_of input_a) engine).0

abbrev after_delete : Engine
after_delete = (run_write answers (delete_of key_a) after_insert).0

insert_then_delete : Writes engine after_delete
unfolding run_write insert_one delete_one log_operation encode_write_operation operation_bytes
    operation_header validate_primary_key valid_string get is_some next_document_id append sync
    check_append write_record append_to_writing append_expected append_document put_key put
    mark_deleted reopened log_file log_records encode_wal_file_header encode_wal_record
    record_header PrimaryMap.delete DeleteStore.mark_deleted member bytes_equal
insert_then_delete =
    then_write answers (delete_of key_a) 0
      (then_write answers (insert_of input_a) 0 none_yet (omega arith) refl) (omega arith) refl

Writes-reopen_example :
    (wal : Wal) × (open_wal never false 8 after_delete.wal.file ≡ ok wal)
    × (replay always_live (recover_record live_ctx) wal base ≡ ok after_delete.manager)
Writes-reopen_example = Writes-reopen 8 engine-Recoverable base-IsSound insert_then_delete
