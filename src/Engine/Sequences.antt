-- ===== src/Engine/Sequences.antt =====
-- Any number of acknowledged writes, one after the other.
use zvec.Base.{
  ℕ, ◌+◌, ◌<◌, ◌^◌, ◌≡◌, refl, sym, ◌∙◌, List, [], ◌∷◌, ◌++◌, Option, none, some, inl, inr,
  bytes_equal, Bool-cases, Option-cases, if◌then◌else◌, arith,
}
use zvec.Errors.{Result, ok, err, ◌>>=◌, live_ctx, Result-cases}
use zvec.PrimaryMap
use zvec.PrimaryMap.{DocumentLocation, get, put}
use zvec.PrimaryMap.Laws.{IsInjective}
use zvec.PrimaryMap.Injective.{put-Written, delete_lem}
use zvec.Segment.{append_expected, append_document}
use zvec.Manager.{SegmentManager, is_some}
use zvec.Operation.{
  operation_bytes, WriteOperation, WriteOperationType, insert, upsert, update, delete,
}
use zvec.Operation.RoundTrip.{IsOperation}
use zvec.Engine.Run.{Engine}
use zvec.Engine.Recover.{
  apply_recovered_operation, append_to_writing, mark_deleted, put_key, delete_previous, delete_key,
}
use zvec.Engine.Replays.{HasWords}
use zvec.Engine.Durability.{
  Recoverable, Write, run_write, run_write-Logs, Logs-Recoverable, operation_bytes-fit,
}
use zvec.Engine.{Answers}

-- The identifiers are words, and no two keys have one location.
pub record IsSound (m : SegmentManager) : Type 0 where
  pub words : HasWords m
  pub keys : IsInjective m.primary_key

invert :
    (r : Result SegmentManager) (rest : SegmentManager → Result SegmentManager) (m : SegmentManager)
    → (r >>= rest) ≡ ok m
    → (middle : SegmentManager) × (r ≡ ok middle) × (rest middle ≡ ok m)
invert (ok middle) rest m done = (middle, refl, done)
invert (err x) rest m done = cc

append_to_writing-IsSound :
    (id : ℕ) (key payload : List ℕ) (m m' : SegmentManager)
    → append_to_writing live_ctx id key payload m ≡ ok m'
    → IsSound m
    → IsSound m'
unfolding append_to_writing append_expected append_document
append_to_writing-IsSound id key payload m m' done h = elim (Option-cases m.writing) [
  | inl missing ↦ ground (arith, missing)
  | inr (w, present) ↦
      let small = h.words.writing_word w present in
      let same : m'.primary_key ≡ m.primary_key = ground (arith, present) in
      record {
        words = record {
          writing_word = λ w' present'. ground (arith, present, small);
          location_words = λ k l found. h.words.location_words k l (rw same at found);
        };
        keys = rw same h.keys;
      }
]

mark_deleted-IsSound :
    (id : ℕ) (m m' : SegmentManager) → mark_deleted live_ctx id m ≡ ok m' → IsSound m → IsSound m'
unfolding mark_deleted
mark_deleted-IsSound id m m' done h =
    let same : m'.primary_key ≡ m.primary_key = ground arith in
    let writing : m'.writing ≡ m.writing = ground arith in
    record {
      words = record {
        writing_word = λ w present. h.words.writing_word w (sym writing ∙ present);
        location_words = λ k l found. h.words.location_words k l (rw same at found);
      };
      keys = rw same h.keys;
    }

put_key-IsSound :
    (key : List ℕ) (location : DocumentLocation) (m m' : SegmentManager)
    → put_key live_ctx key location m ≡ ok m'
    → (location.segment_id < 2 ^ 64) × (location.doc_id < 2 ^ 64)
    → IsSound m
    → IsSound m'
unfolding put_key
put_key-IsSound key location m m' done small h =
    elim (Result-cases (put live_ctx key location m.primary_key)) [
      | inr (x, refused) ↦ ground (arith, refused)
      | inl ((keys, previous), written) ↦
          let now : m' ≡ record m { primary_key = keys } = ground (arith, written) in
          let w = put-Written live_ctx key location m.primary_key keys previous h.keys written in
          rw now (record {
            words = record {
              writing_word = h.words.writing_word;
              location_words = λ k l found.
                  put_words key k location l (get m.primary_key k) small
                    (h.words.location_words k l) (sym (w.reads k) ∙ found);
            };
            keys = w.kept;
          })
    ]
  where
    put_words :
        (key k : List ℕ) (location l : DocumentLocation) (before : Option DocumentLocation)
        → (location.segment_id < 2 ^ 64) × (location.doc_id < 2 ^ 64)
        → (before ≡ some l → (l.segment_id < 2 ^ 64) × (l.doc_id < 2 ^ 64))
        → (if bytes_equal key k then some location else before) ≡ some l
        → (l.segment_id < 2 ^ 64) × (l.doc_id < 2 ^ 64)
    put_words key k location l before small old found = elim (Bool-cases (bytes_equal key k)) [
      | inl same ↦ let e : location ≡ l = ground (arith, same) in rw (sym e) small
      | inr other ↦ old (ground (arith, other))
    ]

delete_key-IsSound :
    (key : List ℕ) (m m' : SegmentManager)
    → delete_key live_ctx key m ≡ ok m'
    → IsSound m
    → IsSound m'
unfolding delete_key is_some
delete_key-IsSound key m m' done h =
    elim (Result-cases (PrimaryMap.delete live_ctx key m.primary_key)) [
      | inr (x, refused) ↦ ground (arith, refused)
      | inl ((keys, previous), deleted) ↦
          let now : m' ≡ record m { primary_key = keys } = ground (arith, deleted) in
          let (kept, prior, reads) =
            delete_lem live_ctx key m.primary_key keys previous h.keys deleted in
          rw now (record {
            words = record {
              writing_word = h.words.writing_word;
              location_words =
                  λ k l found. h.words.location_words k l (ground (arith, reads k, found));
            };
            keys = kept;
          })
    ]

delete_previous-IsSound :
    (previous : Option DocumentLocation) (m m' : SegmentManager)
    → delete_previous live_ctx previous m ≡ ok m'
    → IsSound m
    → IsSound m'
unfolding delete_previous
delete_previous-IsSound none m m' done h = let e : m ≡ m' = ground arith in rw (sym e) h
delete_previous-IsSound (some l) m m' done h = mark_deleted-IsSound l.doc_id m m' done h

abbrev place_of : WriteOperation → DocumentLocation
place_of o = record { segment_id = o.segment_id; doc_id = o.doc_id }

-- The three shapes of a recovered operation.
insert-IsSound :
    (o : WriteOperation) (m m' : SegmentManager)
    → IsOperation o
    → (append_to_writing live_ctx o.doc_id o.primary_key o.payload m
        >>= put_key live_ctx o.primary_key (place_of o))
      ≡ ok m'
    → IsSound m
    → IsSound m'
insert-IsSound o m m' ho done h =
    let (appended, first, rest) = invert _ _ m' done in
    put_key-IsSound o.primary_key (place_of o) appended m' rest (ho.segment_word, ho.document_word)
      (append_to_writing-IsSound o.doc_id o.primary_key o.payload m appended first h)

put-IsSound :
    (o : WriteOperation) (previous : Option DocumentLocation) (m m' : SegmentManager)
    → IsOperation o
    → (append_to_writing live_ctx o.doc_id o.primary_key o.payload m >>= λ a.
        delete_previous live_ctx previous a >>= put_key live_ctx o.primary_key (place_of o))
      ≡ ok m'
    → IsSound m
    → IsSound m'
put-IsSound o previous m m' ho done h =
    let (appended, first, later) = invert _ _ m' done in
    let (marked, second, rest) = invert _ _ m' later in
    put_key-IsSound o.primary_key (place_of o) marked m' rest (ho.segment_word, ho.document_word)
      (delete_previous-IsSound previous appended marked second
        (append_to_writing-IsSound o.doc_id o.primary_key o.payload m appended first h))

remove-IsSound :
    (o : WriteOperation) (m m' : SegmentManager)
    → (mark_deleted live_ctx o.doc_id m >>= delete_key live_ctx o.primary_key) ≡ ok m'
    → IsSound m
    → IsSound m'
remove-IsSound o m m' done h =
    let (marked, first, rest) = invert _ _ m' done in
    delete_key-IsSound o.primary_key marked m' rest (mark_deleted-IsSound o.doc_id m marked first h)

shape_insert :
    (o : WriteOperation) (m m' : SegmentManager)
    → o.operation_type ≡ insert
    → apply_recovered_operation live_ctx o m ≡ ok m'
    → (append_to_writing live_ctx o.doc_id o.primary_key o.payload m
        >>= put_key live_ctx o.primary_key (place_of o))
      ≡ ok m'
unfolding apply_recovered_operation
shape_insert o m m' t done = ground (arith, t)

shape_upsert :
    (o : WriteOperation) (m m' : SegmentManager)
    → o.operation_type ≡ upsert
    → apply_recovered_operation live_ctx o m ≡ ok m'
    → (append_to_writing live_ctx o.doc_id o.primary_key o.payload m >>= λ a.
        delete_previous live_ctx (get m.primary_key o.primary_key) a
        >>= put_key live_ctx o.primary_key (place_of o))
      ≡ ok m'
unfolding apply_recovered_operation
shape_upsert o m m' t done = ground (arith, t)

shape_update :
    (o : WriteOperation) (m m' : SegmentManager)
    → o.operation_type ≡ update
    → apply_recovered_operation live_ctx o m ≡ ok m'
    → (append_to_writing live_ctx o.doc_id o.primary_key o.payload m >>= λ a.
        delete_previous live_ctx (get m.primary_key o.primary_key) a
        >>= put_key live_ctx o.primary_key (place_of o))
      ≡ ok m'
unfolding apply_recovered_operation
shape_update o m m' t done = ground (arith, t)

shape_delete :
    (o : WriteOperation) (m m' : SegmentManager)
    → o.operation_type ≡ delete
    → apply_recovered_operation live_ctx o m ≡ ok m'
    → (mark_deleted live_ctx o.doc_id m >>= delete_key live_ctx o.primary_key) ≡ ok m'
unfolding apply_recovered_operation
shape_delete o m m' t done = ground (arith, t)

applied-IsSound :
    (o : WriteOperation) (m m' : SegmentManager)
    → IsOperation o
    → apply_recovered_operation live_ctx o m ≡ ok m'
    → IsSound m
    → IsSound m'
applied-IsSound o m m' ho done h = go o.operation_type refl
  where
    go : (t : WriteOperationType) → o.operation_type ≡ t → IsSound m'
    go insert t = insert-IsSound o m m' ho (shape_insert o m m' t done) h
    go upsert t =
        put-IsSound o (get m.primary_key o.primary_key) m m' ho (shape_upsert o m m' t done) h
    go update t =
        put-IsSound o (get m.primary_key o.primary_key) m m' ho (shape_update o m m' t done) h
    go delete t = remove-IsSound o m m' (shape_delete o m m' t done) h

-- Acknowledged writes in a row, each with room for its record in a file below 2^63 bytes.
pub data Writes (e : Engine) : Engine → Type 0 where
  none_yet : Writes e e
  then_write :
      {e' e'' : Engine} (answers : Answers) (write : Write) (id : ℕ)
      → Writes e e'
      → e'.wal.size + 67174533 < 2 ^ 63
      → run_write answers write e' ≡ (e'', ok id)
      → Writes e e''

-- After any number of acknowledged inserts, upserts, updates and deletes, each with room for its
-- record in a file below 2^63 bytes, replaying the log rebuilds the manager as it is, no two keys
-- have one location, and all identifiers are words, if all of that held before the first of them.
pub Writes-Recoverable :
    {base : SegmentManager} {e e' : Engine} {payloads : List (List ℕ)}
    → Recoverable base e payloads
    → IsSound e.manager
    → Writes e e'
    → (payloads' : List (List ℕ)) × Recoverable base e' payloads' × IsSound e'.manager
Writes-Recoverable {payloads = payloads} h sound none_yet = (payloads, h, sound)
Writes-Recoverable {base = base} {e = e} {e' = e''} h sound
      (then_write {e' = e'} answers write id writes room done) =
    let (payloads', h', sound') = Writes-Recoverable h sound writes in
    let (o, l) = run_write-Logs answers write e' e'' id sound'.words done in
    (
      payloads' ++ (operation_bytes o ∷ []),
      Logs-Recoverable base answers e' e'' o payloads' h' l
          (omega (arith, operation_bytes-fit o l.operation)),
      applied-IsSound o e'.manager e''.manager l.operation l.applied sound',
    )
