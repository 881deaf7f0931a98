-- ===== src/Engine/Durability.antt =====
-- internal/db/write_engine.go: an acknowledged write, and replaying the log that it leaves.
use zvec.Base.{ℕ, ◌+◌, ◌<◌, ◌^◌, ◌≡◌, refl, List, [], ◌∷◌, ◌++◌, Bool, length, arith, inl, inr}
use zvec.Errors.{Result, ok, err, live_ctx, Result-cases}
use zvec.Wal.Handle.{Wal, append, sync}
use zvec.Wal.Handle.Invariant.{IsLog}
use zvec.Wal.Handle.Append.{appended-IsLog}
use zvec.Wal.Handle.Replay.{apply_all}
use zvec.Wal.Scan.{WalRecord}
use zvec.Manager.{SegmentManager}
use zvec.Operation.{WriteOperation, operation_bytes}
use zvec.Operation.RoundTrip.{
  IsOperation, decode-encode_write_operation, length-operation_bytes, validate_primary_key_fits,
}
use zvec.Engine.Run.{Engine}
use zvec.Engine.Recover.{recover_record}
use zvec.Engine.Replays.{HasWords, Logs, insert_one-Logs, upsert_one-Logs, update_one-Logs}
use zvec.Engine.Deletes.{delete_one-Logs}
use zvec.Engine.{Answers, WriteInput, log_operation, insert_one, upsert_one, update_one, delete_one}

apply_all-snoc {ℓ} :
    {S : Type ℓ} (apply : WalRecord → S → Result S) (lsn : ℕ) (ps : List (List ℕ)) (p : List ℕ)
    (s t u : S)
    → apply_all apply lsn ps s ≡ ok t
    → ((n : ℕ) → apply (record { lsn = n; payload = p }) t ≡ ok u)
    → apply_all apply lsn (ps ++ (p ∷ [])) s ≡ ok u
unfolding apply_all
apply_all-snoc apply lsn [] p s t u e h = ground (arith, h lsn)
apply_all-snoc {S} apply lsn (q ∷ ps) p s t u e h =
    elim (Result-cases (apply (record { lsn = lsn; payload = q }) s)) [
      | inl (s', applied) ↦
          rw applied (apply_all-snoc apply (lsn + 1) ps p s' t u (rw applied at e) h)
      | inr (x, refused) ↦ ground (arith, refused)
    ]

-- The log holds the operations of `payloads`, and replaying them on `base` gives the manager.
pub record Recoverable (base : SegmentManager) (e : Engine) (payloads : List (List ℕ))
    : Type 0 where
  pub log : IsLog e.wal payloads
  pub rebuilt : apply_all (recover_record live_ctx) 1 payloads base ≡ ok e.manager

pub sync-IsLog :
    (sync_ok : Bool) (answers : Answers) (wal : Wal) (payloads : List (List ℕ))
    → IsLog wal payloads
    → IsLog (sync sync_ok answers.sync_ctx wal).0 payloads
unfolding sync
sync-IsLog sync_ok answers wal payloads h = ground arith

pub log_operation-synced :
    (answers : Answers) (bytes : List ℕ) (e : Engine) (wal : Wal) (lsn : ℕ)
    → append answers.write answers.append_ctx bytes e.wal ≡ (wal, ok lsn)
    → (log_operation answers bytes e).0.wal ≡ (sync answers.sync_ok answers.sync_ctx wal).0
unfolding log_operation
log_operation-synced answers bytes e wal lsn appended = ground (arith, appended)

pub log_operation-IsLog :
    (answers : Answers) (bytes : List ℕ) (e : Engine) (payloads : List (List ℕ))
    → IsLog e.wal payloads
    → e.wal.size + 32 + length bytes < 2 ^ 63
    → (log_operation answers bytes e).1 ≡ ok tt
    → IsLog (log_operation answers bytes e).0.wal (payloads ++ (bytes ∷ []))
unfolding log_operation
log_operation-IsLog answers bytes e payloads h room done =
    go (append answers.write answers.append_ctx bytes e.wal) refl done
  where
    go :
        (r : Wal × Result ℕ)
        → append answers.write answers.append_ctx bytes e.wal ≡ r
        → (log_operation answers bytes e).1 ≡ ok tt
        → IsLog (log_operation answers bytes e).0.wal (payloads ++ (bytes ∷ []))
    go (wal, ok lsn) appended done = rw (log_operation-synced answers bytes e wal lsn appended) (
        sync-IsLog answers.sync_ok answers wal (payloads ++ (bytes ∷ [])) (
          appended-IsLog answers.write answers.append_ctx bytes e.wal wal payloads lsn h room
            appended))
    go (wal, err x) refused done = ground (arith, refused)

recover_record-operation :
    (answers : Answers) (e e' : Engine) (o : WriteOperation) (lsn : ℕ)
    → Logs answers e e' o
    → recover_record live_ctx (record { lsn = lsn; payload = operation_bytes o }) e.manager
      ≡ ok e'.manager
unfolding recover_record
recover_record-operation answers e e' o lsn h =
    rw ((decode-encode_write_operation o h.operation).1, h.applied) refl

pub Logs-Recoverable :
    (base : SegmentManager) (answers : Answers) (e e' : Engine) (o : WriteOperation)
    (payloads : List (List ℕ))
    → Recoverable base e payloads
    → Logs answers e e' o
    → e.wal.size + 32 + length (operation_bytes o) < 2 ^ 63
    → Recoverable base e' (payloads ++ (operation_bytes o ∷ []))
Logs-Recoverable base answers e e' o payloads h l room = record {
  log = rw l.log (log_operation-IsLog answers (operation_bytes o) e payloads h.log room l.durable);
  rebuilt =
      apply_all-snoc (recover_record live_ctx) 1 payloads (operation_bytes o) base e.manager
        e'.manager h.rebuilt (λ lsn. recover_record-operation answers e e' o lsn l);
}

pub operation_bytes-fit :
    (o : WriteOperation) → IsOperation o → length (operation_bytes o) < 67174501
operation_bytes-fit o h =
    let (pos, short) = validate_primary_key_fits o.primary_key tt h.key_valid in
    omega (arith, length-operation_bytes o, h.payload_fits)

-- A write of one of the four kinds.
pub data Write : Type 0 where
  insert_of upsert_of update_of : WriteInput → Write
  delete_of : List ℕ → Write

unfoldable pub run_write : Answers → Write → Engine → Engine × Result ℕ
run_write answers (insert_of input) = insert_one answers input
run_write answers (upsert_of input) = upsert_one answers input
run_write answers (update_of input) = update_one answers input
run_write answers (delete_of key) = delete_one answers key

pub run_write-Logs :
    (answers : Answers) (write : Write) (e e' : Engine) (id : ℕ)
    → HasWords e.manager
    → run_write answers write e ≡ (e', ok id)
    → (o : WriteOperation) × Logs answers e e' o
unfolding run_write
run_write-Logs answers (insert_of input) e e' id = insert_one-Logs answers input e e' id
run_write-Logs answers (upsert_of input) e e' id = upsert_one-Logs answers input e e' id
run_write-Logs answers (update_of input) e e' id = update_one-Logs answers input e e' id
run_write-Logs answers (delete_of key) e e' id = delete_one-Logs answers key e e' id

-- An insert, upsert, update or delete that is acknowledged has appended one operation to the log, and
-- replaying the log it leaves rebuilds the manager it leaves, if replaying the log before it rebuilt
-- the manager before it. It is assumed that identifiers are 64-bit words and that the file has room
-- for the record below 2^63 bytes.
pub run_write-Recoverable :
    (base : SegmentManager) (answers : Answers) (write : Write) (e e' : Engine) (id : ℕ)
    (payloads : List (List ℕ))
    → Recoverable base e payloads
    → HasWords e.manager
    → e.wal.size + 67174533 < 2 ^ 63
    → run_write answers write e ≡ (e', ok id)
    → (o : WriteOperation) × Recoverable base e' (payloads ++ (operation_bytes o ∷ []))
run_write-Recoverable base answers write e e' id payloads h words room done =
    let (o, l) = run_write-Logs answers write e e' id words done in
    let fits = operation_bytes-fit o l.operation in
    (o, Logs-Recoverable base answers e e' o payloads h l (omega (arith, fits)))
