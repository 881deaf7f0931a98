-- ===== src/Engine/Replays.antt =====
-- internal/db/write_engine.go: the change that a write makes, and that of the replay of its operation.
use zvec.Base.{
  ℕ, ◌⊎◌, ◌≤◌, ◌<◌, ◌^◌, ◌≡◌, List, true, false, none, some, length, arith, Option-cases, inl, inr,
}
use zvec.Errors.{ok, ◌>>=◌, live_ctx}
use zvec.PrimaryMap.{DocumentLocation, get, validate_primary_key}
use zvec.Segment.{WriteSegment, next_document_id}
use zvec.Manager.{SegmentManager, is_some}
use zvec.Operation.{
  WriteOperation, WriteOperationType, insert, upsert, update, operation_bytes,
  encode_write_operation,
}
use zvec.Operation.RoundTrip.{IsOperation}
use zvec.Engine.Run.{Engine}
use zvec.Engine.Recover.{apply_recovered_operation, append_to_writing, delete_previous, put_key}
use zvec.Engine.{Answers, WriteInput, log_operation, insert_one, upsert_one, update_one}

-- The identifiers are machine words.
pub record HasWords (m : SegmentManager) : Type 0 where
  pub writing_word : (w : WriteSegment) → m.writing ≡ some w → w.id < 2 ^ 64
  pub location_words :
      (key : List ℕ) (l : DocumentLocation)
      → get m.primary_key key ≡ some l
      → (l.segment_id < 2 ^ 64) × (l.doc_id < 2 ^ 64)

-- The write logged `o`, and did to the manager what replaying `o` does.
pub record Logs (answers : Answers) (e e' : Engine) (o : WriteOperation) : Type 0 where
  pub operation : IsOperation o
  pub durable : (log_operation answers (operation_bytes o) e).1 ≡ ok tt
  pub log : e'.wal ≡ (log_operation answers (operation_bytes o) e).0.wal
  pub applied : apply_recovered_operation live_ctx o e.manager ≡ ok e'.manager

pub log_operation-manager :
    (answers : Answers) (bytes : List ℕ) (e : Engine)
    → (log_operation answers bytes e).0.manager ≡ e.manager
unfolding log_operation
log_operation-manager answers bytes e = ground arith

pub next_document_id-lt : (w : WriteSegment) (id : ℕ) → next_document_id w ≡ ok id → id < 2 ^ 64
unfolding next_document_id
next_document_id-lt w id e = ground arith

-- The operation that a write of `input` logs.
unfoldable pub logged_as : WriteOperationType → WriteSegment → ℕ → WriteInput → WriteOperation
logged_as t w id input = record {
  operation_type = t;
  segment_id = w.id;
  doc_id = id;
  primary_key = input.primary_key;
  payload = input.payload;
}

module _ (answers : Answers) (input : WriteInput) (e e' : Engine) (id : ℕ) (w : WriteSegment)
    (present : e.manager.writing ≡ some w) (done : insert_one answers input e ≡ (e', ok id)) where
  pub insert_checked :
      (validate_primary_key input.primary_key ≡ ok tt)
      × (length input.payload ≤ 67108864)
      × (next_document_id w ≡ ok id)
      × (is_some (get e.manager.primary_key input.primary_key) ≡ false)
  unfolding insert_one
  insert_checked = ground (arith, present)

  insert_logged :
      ((log_operation answers (operation_bytes (logged_as insert w id input)) e).1 ≡ ok tt)
      × (e'.wal ≡ (log_operation answers (operation_bytes (logged_as insert w id input)) e).0.wal)
  unfolding insert_one encode_write_operation logged_as
  insert_logged = (ground (arith, present), ground (arith, present))

  insert_changes :
      (append_to_writing live_ctx id input.primary_key input.payload e.manager
        >>= put_key live_ctx input.primary_key (record { segment_id = w.id; doc_id = id }))
      ≡ ok e'.manager
  unfolding insert_one encode_write_operation logged_as
  insert_changes = ground (
    arith,
    present,
    log_operation-manager answers (operation_bytes (logged_as insert w id input)) e,
  )

  pub insert_Logs : HasWords e.manager → Logs answers e e' (logged_as insert w id input)
  unfolding apply_recovered_operation logged_as
  insert_Logs words = record {
    operation = record {
      segment_word = words.writing_word w present;
      document_word = next_document_id-lt w id insert_checked.2;
      key_valid = insert_checked.0;
      payload_fits = insert_checked.1;
    };
    durable = insert_logged.0;
    log = insert_logged.1;
    applied = ground (arith, present, insert_checked, insert_changes);
  }

module _ (answers : Answers) (input : WriteInput) (e e' : Engine) (id : ℕ) (w : WriteSegment)
    (present : e.manager.writing ≡ some w) (done : upsert_one answers input e ≡ (e', ok id)) where
  upsert_checked :
      (validate_primary_key input.primary_key ≡ ok tt)
      × (length input.payload ≤ 67108864)
      × (next_document_id w ≡ ok id)
  unfolding upsert_one
  upsert_checked = ground (arith, present)

  upsert_logged :
      ((log_operation answers (operation_bytes (logged_as upsert w id input)) e).1 ≡ ok tt)
      × (e'.wal ≡ (log_operation answers (operation_bytes (logged_as upsert w id input)) e).0.wal)
  unfolding upsert_one encode_write_operation logged_as
  upsert_logged = (ground (arith, present), ground (arith, present))

  upsert_changes :
      (append_to_writing live_ctx id input.primary_key input.payload e.manager >>= λ m.
      delete_previous live_ctx (get e.manager.primary_key input.primary_key) m
      >>= put_key live_ctx input.primary_key (record { segment_id = w.id; doc_id = id }))
      ≡ ok e'.manager
  unfolding upsert_one encode_write_operation logged_as
  upsert_changes = ground (
    arith,
    present,
    log_operation-manager answers (operation_bytes (logged_as upsert w id input)) e,
  )

  upsert_Logs : HasWords e.manager → Logs answers e e' (logged_as upsert w id input)
  unfolding apply_recovered_operation logged_as
  upsert_Logs words = record {
    operation = record {
      segment_word = words.writing_word w present;
      document_word = next_document_id-lt w id upsert_checked.2;
      key_valid = upsert_checked.0;
      payload_fits = upsert_checked.1;
    };
    durable = upsert_logged.0;
    log = upsert_logged.1;
    applied = ground (arith, present, upsert_checked, upsert_changes);
  }

module _ (answers : Answers) (input : WriteInput) (e e' : Engine) (id : ℕ) (w : WriteSegment)
    (present : e.manager.writing ≡ some w) (done : update_one answers input e ≡ (e', ok id)) where
  update_checked :
      (validate_primary_key input.primary_key ≡ ok tt)
      × (length input.payload ≤ 67108864)
      × (next_document_id w ≡ ok id)
      × (is_some (get e.manager.primary_key input.primary_key) ≡ true)
  unfolding update_one
  update_checked = ground (arith, present)

  update_logged :
      ((log_operation answers (operation_bytes (logged_as update w id input)) e).1 ≡ ok tt)
      × (e'.wal ≡ (log_operation answers (operation_bytes (logged_as update w id input)) e).0.wal)
  unfolding update_one encode_write_operation logged_as
  update_logged = (ground (arith, present), ground (arith, present))

  update_changes :
      (append_to_writing live_ctx id input.primary_key input.payload e.manager >>= λ m.
      delete_previous live_ctx (get e.manager.primary_key input.primary_key) m
      >>= put_key live_ctx input.primary_key (record { segment_id = w.id; doc_id = id }))
      ≡ ok e'.manager
  unfolding update_one encode_write_operation logged_as
  update_changes = ground (
    arith,
    present,
    log_operation-manager answers (operation_bytes (logged_as update w id input)) e,
  )

  update-Logs : HasWords e.manager → Logs answers e e' (logged_as update w id input)
  unfolding apply_recovered_operation logged_as
  update-Logs words = record {
    operation = record {
      segment_word = words.writing_word w present;
      document_word = next_document_id-lt w id update_checked.2;
      key_valid = update_checked.0;
      payload_fits = update_checked.1;
    };
    durable = update_logged.0;
    log = update_logged.1;
    applied = ground (arith, present, update_checked, update_changes);
  }

pub writing_present :
    (e : Engine) → (e.manager.writing ≡ none) ⊎ ((w : WriteSegment) × (e.manager.writing ≡ some w))
writing_present e = Option-cases e.manager.writing

-- An insert, upsert or update that succeeds has made durable an operation, and has changed the
-- manager as replaying that operation changes it.
pub insert_one-Logs :
    (answers : Answers) (input : WriteInput) (e e' : Engine) (id : ℕ)
    → HasWords e.manager
    → insert_one answers input e ≡ (e', ok id)
    → (o : WriteOperation) × Logs answers e e' o
unfolding insert_one
insert_one-Logs answers input e e' id words done = elim (writing_present e) [
  | inl missing ↦ ground (arith, missing)
  | inr (w, present) ↦
      (logged_as insert w id input, insert_Logs answers input e e' id w present done words)
]

pub upsert_one-Logs :
    (answers : Answers) (input : WriteInput) (e e' : Engine) (id : ℕ)
    → HasWords e.manager
    → upsert_one answers input e ≡ (e', ok id)
    → (o : WriteOperation) × Logs answers e e' o
unfolding upsert_one
upsert_one-Logs answers input e e' id words done = elim (writing_present e) [
  | inl missing ↦ ground (arith, missing)
  | inr (w, present) ↦
      (logged_as upsert w id input, upsert_Logs answers input e e' id w present done words)
]

pub update_one-Logs :
    (answers : Answers) (input : WriteInput) (e e' : Engine) (id : ℕ)
    → HasWords e.manager
    → update_one answers input e ≡ (e', ok id)
    → (o : WriteOperation) × Logs answers e e' o
unfolding update_one
update_one-Logs answers input e e' id words done = elim (writing_present e) [
  | inl missing ↦ ground (arith, missing)
  | inr (w, present) ↦
      (logged_as update w id input, update-Logs answers input e e' id w present done words)
]
