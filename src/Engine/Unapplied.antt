-- ===== src/Engine/Unapplied.antt =====
-- What a record that is logged but never applied does to the next recovery: `insertOneLocked` returns
-- between `wal.Append` and `AppendExpected` when `wal.Sync` fails or its context is done.
use zvec.Base.{
  ℕ, ◌+◌, ◌≤◌, ◌<◌, ◌^◌, ◌≡◌, ◌≢◌, ◌%◌, inl, inr, ◌∙◌, Option-cases, length-append, refl, ap,
  append_assoc, List, [], ◌∷◌, ◌++◌, none, some, length, arith,
}
use zvec.Errors.{Error, Result, ok, err, live_ctx, Result-cases, wal_corrupt}
use zvec.PrimaryMap.{DocumentLocation, validate_primary_key}
use zvec.Engine.{Answers, WriteInput, insert_one, log_operation}
use zvec.Engine.Run.{Engine}
use zvec.Segment.{
  WriteSegment, StoredDocument, unexpected, next_document_id, append_expected, append_document,
}
use zvec.Manager.{SegmentManager}
use zvec.Operation.{WriteOperation, insert, operation_bytes, encode_write_operation}
use zvec.Operation.RoundTrip.{IsOperation, decode-encode_write_operation}
use zvec.Wal.Scan.{WalRecord}
use zvec.Wal.Handle.{Wal, append}
use zvec.Wal.Codec.{encode_wal_record}
use zvec.Wal.Codec.Laws.{length-encode_wal_record}
use zvec.Wal.Scan.Records.{log_file}
use zvec.Wal.Handle.Invariant.{IsLog, log_file-snoc}
use zvec.Wal.Handle.Append.{appended-IsLog, grown-IsLog}
use zvec.Wal.Handle.Replay.{apply_all}
use zvec.Engine.Replays.{
  HasWords, logged_as, insert_Logs, insert_checked, writing_present, next_document_id-lt,
}
use zvec.Engine.Durability.{
  Recoverable, log_operation-synced, sync-IsLog, log_operation-IsLog, operation_bytes-fit,
}
use zvec.Engine.Recover.{apply_recovered_operation, append_to_writing, put_key, recover_record}

-- The operations of two inserts that were given the same document identifier.
pub record SameDocument (o o' : WriteOperation) : Type 0 where
  pub first : o.operation_type ≡ insert
  pub second : o'.operation_type ≡ insert
  pub document : o.doc_id ≡ o'.doc_id

-- The log behind `payloads`: two inserts of one document identifier, with the keys and the payloads of two
-- inputs, the second of them that of the document `id`
pub record HoldsTwice (payloads payloads' : List (List ℕ)) (input input' : WriteInput) (id : ℕ)
    : Type 0 where
  pub lost : WriteOperation
  pub kept : WriteOperation
  pub same : SameDocument lost kept
  pub given : kept.doc_id ≡ id
  pub first_key : lost.primary_key ≡ input.primary_key
  pub first_payload : lost.payload ≡ input.payload
  pub second_key : kept.primary_key ≡ input'.primary_key
  pub second_payload : kept.payload ≡ input'.payload
  pub appended : payloads' ≡ payloads ++ (operation_bytes lost ∷ operation_bytes kept ∷ [])

-- The place behind the last document of the writing segment is `n`, which is the identifier of the
-- next document.
record Follows (n : ℕ) (m : SegmentManager) : Type 0 where
  writing : WriteSegment
  present : m.writing ≡ some writing
  place : (writing.min_doc_id + length writing.docs) % 2 ^ 64 ≡ n

append_to_writing-Follows :
    (id : ℕ) (key payload : List ℕ) (m m' : SegmentManager)
    → append_to_writing live_ctx id key payload m ≡ ok m'
    → Follows id m × Follows ((id + 1) % 2 ^ 64) m'
unfolding append_to_writing append_expected append_document unexpected
append_to_writing-Follows id key payload m m' done = elim (Option-cases m.writing) [
  | inl missing ↦ ground (arith, missing)
  | inr (w, present) ↦
      let doc : StoredDocument = record { doc_id = id; primary_key = key; payload = payload } in
      let place : (w.min_doc_id + length w.docs) % 2 ^ 64 ≡ id = ground (arith, present) in
      (
        record { writing = w; present = present; place = place },
        record {
          writing = record w { docs = w.docs ++ (doc ∷ []) };
          present = ground (arith, present);
          place = omega (arith, length-append w.docs (doc ∷ []), place);
        },
      )
]

put_key-writing :
    (key : List ℕ) (l : DocumentLocation) (m m' : SegmentManager)
    → put_key live_ctx key l m ≡ ok m'
    → m'.writing ≡ m.writing
unfolding put_key
put_key-writing key l m m' done = ground arith

apply_insert-Follows :
    (o : WriteOperation) (m m' : SegmentManager)
    → o.operation_type ≡ insert
    → apply_recovered_operation live_ctx o m ≡ ok m'
    → Follows o.doc_id m × Follows ((o.doc_id + 1) % 2 ^ 64) m'
unfolding apply_recovered_operation
apply_insert-Follows o m m' t done =
    elim (Result-cases (append_to_writing live_ctx o.doc_id o.primary_key o.payload m)) [
      | inr (x, refused) ↦ ground (arith, t, refused)
      | inl (m1, appended) ↦
          let (before, after) =
            append_to_writing-Follows o.doc_id o.primary_key o.payload m m1 appended in
          let indexed : put_key live_ctx o.primary_key
                (record { segment_id = o.segment_id; doc_id = o.doc_id }) m1
              ≡ ok m' =
            ground (arith, t, appended) in
          (
            before,
            record {
              writing = after.writing;
              present = put_key-writing o.primary_key _ m1 m' indexed ∙ after.present;
              place = after.place;
            },
          )
    ]

Follows-unique : (m : SegmentManager) (n n' : ℕ) → Follows n m → Follows n' m → n ≡ n'
Follows-unique m n n' f f' = ground (arith, f.present, f.place, f'.present, f'.place)

apply_insert_twice :
    (o o' : WriteOperation) (m m' m'' : SegmentManager)
    → SameDocument o o'
    → apply_recovered_operation live_ctx o m ≡ ok m'
    → apply_recovered_operation live_ctx o' m' ≢ ok m''
apply_insert_twice o o' m m' m'' same first second =
    let (before, after) = apply_insert-Follows o m m' same.first first in
    let (again, rest) = apply_insert-Follows o' m' m'' same.second second in
    let clash = Follows-unique m' ((o.doc_id + 1) % 2 ^ 64) o'.doc_id after again in
    omega (arith, clash, same.document, before.place)

module _ (answers : Answers) (input : WriteInput) (e e' : Engine) (x : Error) (w : WriteSegment)
    (present : e.manager.writing ≡ some w) (failed : insert_one answers input e ≡ (e', err x))
    (grew : e'.wal.last_lsn ≡ e.wal.last_lsn + 1) where
  reached :
      (id : ℕ) × (next_document_id w ≡ ok id)
      × (validate_primary_key input.primary_key ≡ ok tt)
      × (length input.payload ≤ 67108864)
  unfolding insert_one
  reached = elim (Result-cases (next_document_id w)) [
    | inl (id, next) ↦ (id, next, ground (arith, present, next), ground (arith, present, next))
    | inr (y, refused) ↦ ground (arith, present, refused)
  ]

  failed_log :
      (id : ℕ)
      → next_document_id w ≡ ok id
      → e'.wal ≡ (log_operation answers (operation_bytes (logged_as insert w id input)) e).0.wal
  unfolding insert_one encode_write_operation logged_as
  failed_log id next = ground (arith, present, next)

log_operation-grown :
    (answers : Answers) (bytes : List ℕ) (e : Engine) (payloads : List (List ℕ))
    → IsLog e.wal payloads
    → e.wal.size + 32 + length bytes < 2 ^ 63
    → (log_operation answers bytes e).0.wal.last_lsn ≡ e.wal.last_lsn + 1
    → IsLog (log_operation answers bytes e).0.wal (payloads ++ (bytes ∷ []))
unfolding log_operation
log_operation-grown answers bytes e payloads h room grew =
    go (append answers.write answers.append_ctx bytes e.wal) refl
  where
    go :
        (r : Wal × Result ℕ)
        → append answers.write answers.append_ctx bytes e.wal ≡ r
        → IsLog (log_operation answers bytes e).0.wal (payloads ++ (bytes ∷ []))
    go (wal, ok lsn) appended =
        let synced = log_operation-synced answers bytes e wal lsn appended in
        rw synced (
          sync-IsLog answers.sync_ok answers wal (payloads ++ (bytes ∷ [])) (
            appended-IsLog answers.write answers.append_ctx bytes e.wal wal payloads lsn h room
              appended))
    go (wal, err x) refused =
        let same : (log_operation answers bytes e).0.wal ≡ wal = ground (arith, refused) in
        rw same (
          grown-IsLog answers.write answers.append_ctx bytes e.wal wal (err x) payloads h room
            refused (rw same at grew))

apply_all-err {ℓ} :
    {S : Type ℓ} (apply : WalRecord → S → Result S) (lsn : ℕ) (ps qs : List (List ℕ)) (s t : S)
    (x : Error)
    → apply_all apply lsn ps s ≡ ok t
    → ((n : ℕ) → apply_all apply n qs t ≡ err x)
    → apply_all apply lsn (ps ++ qs) s ≡ err x
unfolding apply_all
apply_all-err apply lsn [] qs s t x e h = ground (arith, h lsn)
apply_all-err {S} apply lsn (p ∷ ps) qs s t x e h =
    elim (Result-cases (apply (record { lsn = lsn; payload = p }) s)) [
      | inl (s', applied) ↦
          rw applied (apply_all-err apply (lsn + 1) ps qs s' t x (rw applied at e) h)
      | inr (y, refused) ↦ ground (arith, refused)
    ]

twice_corrupt :
    (o o' : WriteOperation) (m : SegmentManager) (lsn : ℕ)
    → IsOperation o
    → IsOperation o'
    → SameDocument o o'
    → apply_all (recover_record live_ctx) lsn (operation_bytes o ∷ operation_bytes o' ∷ []) m
      ≡ err wal_corrupt
unfolding apply_all recover_record
twice_corrupt o o' m lsn h h' same = elim (Result-cases (apply_recovered_operation live_ctx o m)) [
  | inr (x, refused) ↦ rw ((decode-encode_write_operation o h).1, refused) refl
  | inl (m', applied) ↦ elim (Result-cases (apply_recovered_operation live_ctx o' m')) [
    | inr (x, refused) ↦
        rw
          (
            (decode-encode_write_operation o h).1,
            applied,
            (decode-encode_write_operation o' h').1,
            refused,
          )
          refl
    | inl (m'', again) ↦ absurd (apply_insert_twice o o' m m' m'' same applied again)
  ]
]

IsLog-grown :
    (wal wal' : Wal) (payloads : List (List ℕ)) (payload : List ℕ)
    → IsLog wal payloads
    → IsLog wal' (payloads ++ (payload ∷ []))
    → wal'.size ≡ wal.size + 32 + length payload
IsLog-grown wal wal' payloads payload h h' = omega (
  arith,
  h.sized,
  h'.sized,
  ap (λ (bytes : List ℕ). length bytes) (log_file-snoc payloads payload),
  length-append (log_file payloads) (encode_wal_record (length payloads + 1) payload),
  length-encode_wal_record (length payloads + 1) payload,
)

refused_without_writing :
    (answers : Answers) (input : WriteInput) (e e' : Engine) (id : ℕ)
    → insert_one answers input e ≡ (e', ok id)
    → e.manager.writing ≢ none
unfolding insert_one
refused_without_writing answers input e e' id done missing = ground (arith, missing)

-- Let replaying the log on a base rebuild the manager, let an insert take a number of the log and
-- fail without a change of the manager, as when its sync fails or is cancelled, and let the next
-- insert be acknowledged. Then the log holds two more records, inserts of the two inputs under the one
-- document identifier that the second insert returns, and replaying it on that base fails with
-- `ErrWALCorrupt`. Identifiers are assumed to be 64-bit words and the
-- file to have room for both records.
pub unapplied_insert-Corrupt :
    (base : SegmentManager) (answers answers' : Answers) (input input' : WriteInput)
    (e e' e'' : Engine) (x : Error) (id' : ℕ) (payloads : List (List ℕ))
    → Recoverable base e payloads
    → HasWords e.manager
    → e.wal.size + 134349066 < 2 ^ 63
    → insert_one answers input e ≡ (e', err x)
    → e'.wal.last_lsn ≡ e.wal.last_lsn + 1
    → e'.manager ≡ e.manager
    → insert_one answers' input' e' ≡ (e'', ok id')
    → (payloads' : List (List ℕ)) × IsLog e''.wal payloads'
      × HoldsTwice payloads payloads' input input' id'
      × (apply_all (recover_record live_ctx) 1 payloads' base ≡ err wal_corrupt)
unfolding logged_as
unapplied_insert-Corrupt base answers answers' input input' e e' e'' x id' payloads h words room
      failed grew same done =
    elim (writing_present e) [
      | inl missing ↦
          ground (arith, missing, same, refused_without_writing answers' input' e' e'' id' done)
      | inr (w, present) ↦
          let (id, next, key_valid, payload_fits) =
            reached answers input e e' x w present failed grew in
          let present' : e'.manager.writing ≡ some w =
            ap (λ (m : SegmentManager). m.writing) same ∙ present in
          let next' = (insert_checked answers' input' e' e'' id' w present' done).2 in
          let l = insert_Logs answers' input' e' e'' id' w present' done (rw same words) in
          let o = logged_as insert w id input in
          let o' = logged_as insert w id' input' in
          let same_document : SameDocument o o' = record {
            first = refl;
            second = refl;
            document = ground (arith, next, next');
          } in
          let fits : IsOperation o = record {
            segment_word = words.writing_word w present;
            document_word = next_document_id-lt w id next;
            key_valid = key_valid;
            payload_fits = payload_fits;
          } in
          let logged_first : IsLog e'.wal (payloads ++ (operation_bytes o ∷ [])) =
            rw (failed_log answers input e e' x w present failed grew id next) (
              log_operation-grown answers (operation_bytes o) e payloads h.log
                (omega (arith, operation_bytes-fit o fits))
                (rw (failed_log answers input e e' x w present failed grew id next) at grew)) in
          let logged_second : IsLog e''.wal
              ((payloads ++ (operation_bytes o ∷ [])) ++ (operation_bytes o' ∷ [])) =
            rw l.log (
              log_operation-IsLog answers' (operation_bytes o') e'
                (payloads ++ (operation_bytes o ∷ [])) logged_first
                (omega (
                  arith,
                  operation_bytes-fit o fits,
                  operation_bytes-fit o' l.operation,
                  IsLog-grown e.wal e'.wal payloads (operation_bytes o) h.log logged_first,
                ))
                l.durable) in
          (
            (payloads ++ (operation_bytes o ∷ [])) ++ (operation_bytes o' ∷ []),
            logged_second,
            record {
              lost = o;
              kept = o';
              same = same_document;
              given = refl;
              first_key = refl;
              first_payload = refl;
              second_key = refl;
              second_payload = refl;
              appended = append_assoc payloads (operation_bytes o ∷ []) (operation_bytes o' ∷ []);
            },
            rw (append_assoc payloads (operation_bytes o ∷ []) (operation_bytes o' ∷ [])) (
                apply_all-err (recover_record live_ctx) 1 payloads _ base e.manager wal_corrupt
                  h.rebuilt (λ n. twice_corrupt o o' e.manager n fits l.operation same_document)),
          )
    ]
