-- ===== src/Engine/Deletes.antt =====
-- internal/db/write_engine.go: the change that a deletion makes, and that of its replay.
use zvec.Base.{ℕ, inl, inr, ◌==◌, ◌≡◌, List, [], true, some, arith, Option-cases}
use zvec.Errors.{ok, ◌>>=◌, live_ctx}
use zvec.PrimaryMap.{DocumentLocation, get, validate_primary_key}
use zvec.Manager.{SegmentManager, is_some}
use zvec.Operation.{WriteOperation, delete, operation_bytes, encode_write_operation}
use zvec.Engine.Run.{Engine}
use zvec.Engine.Recover.{apply_recovered_operation, mark_deleted, delete_key}
use zvec.Engine.Replays.{HasWords, Logs, log_operation-manager}
use zvec.Engine.{Answers, log_operation, delete_one}

delete_operation : DocumentLocation → List ℕ → WriteOperation
delete_operation l key = record {
  operation_type = delete;
  segment_id = l.segment_id;
  doc_id = l.doc_id;
  primary_key = key;
  payload = [];
}

==-refl : (n : ℕ) → (n == n) ≡ true
==-refl n = ground arith

mark_deleted-primary_key :
    (id : ℕ) (m m' : SegmentManager)
    → mark_deleted live_ctx id m ≡ ok m'
    → m'.primary_key ≡ m.primary_key
unfolding mark_deleted
mark_deleted-primary_key id m m' e = ground arith

module _ (answers : Answers) (key : List ℕ) (e e' : Engine) (id : ℕ) (l : DocumentLocation)
    (found : get e.manager.primary_key key ≡ some l)
    (done : delete_one answers key e ≡ (e', ok id)) where
  delete_logged :
      (validate_primary_key key ≡ ok tt)
      × ((log_operation answers (operation_bytes (delete_operation l key)) e).1 ≡ ok tt)
      × (e'.wal ≡ (log_operation answers (operation_bytes (delete_operation l key)) e).0.wal)
  unfolding delete_one encode_write_operation delete_operation
  delete_logged = (ground (arith, found), ground (arith, found), ground (arith, found))

  delete_changes :
      (mark_deleted live_ctx l.doc_id e.manager >>= delete_key live_ctx key) ≡ ok e'.manager
  unfolding delete_one encode_write_operation delete_operation delete_key is_some
  delete_changes =
      ground
        (arith, found, log_operation-manager answers (operation_bytes (delete_operation l key)) e)

  delete_Logs : HasWords e.manager → Logs answers e e' (delete_operation l key)
  unfolding apply_recovered_operation delete_operation
  delete_Logs words =
      let (segment_word, document_word) = words.location_words key l found in
      record {
        operation = record {
          segment_word = segment_word;
          document_word = document_word;
          key_valid = delete_logged.0;
          payload_fits = omega arith;
        };
        durable = delete_logged.1;
        log = delete_logged.2;
        applied = ground (arith, found, delete_changes, ==-refl l.segment_id, ==-refl l.doc_id);
      }

-- A delete that succeeds has made durable an operation, and has changed the manager as replaying that
-- operation changes it.
pub delete_one-Logs :
    (answers : Answers) (key : List ℕ) (e e' : Engine) (id : ℕ)
    → HasWords e.manager
    → delete_one answers key e ≡ (e', ok id)
    → (o : WriteOperation) × Logs answers e e' o
unfolding delete_one
delete_one-Logs answers key e e' id words done =
    elim (Option-cases (get e.manager.primary_key key)) [
      | inl missing ↦ ground (arith, missing)
      | inr (l, found) ↦
          (delete_operation l key, delete_Logs answers key e e' id l found done words)
    ]
