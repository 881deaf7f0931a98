-- ===== src/Segment/Laws.antt =====
-- internal/db/segment.go: the numbers of documents in a write segment, and finding them.
use zvec.Base.{
  ℕ, zero, suc, ◌+◌, ◌-◌, ◌≤◌, ◌<◌, ◌^◌, ◌≡◌, ◌≢◌, refl, List, [], ◌∷◌, ◌++◌, false, Option, none,
  some, length, length-append, get_elem?, get_elem?-append_length, get_elem?-append_left, arith,
  Option-cases, inl, inr, ◌⊎◌, ap, Bool-cases, ◌==◌, ltb, ◌%◌,
}
use zvec.Errors.{Error, Result, ok, err, Context, zero_capacity, document_range_overflow}
use zvec.Segment.{
  StoredDocument, WriteSegment, new_write_segment, next_document_id, append_document,
  append_expected, document, reserved_range, max_uint64, segment_metadata, last_doc_id,
  immutable_document,
}

-- The IDs are `first`, `first + 1`, …
abbrev Numbered : ℕ → List StoredDocument → Type 0
Numbered first [] = Unit {0}
Numbered first (d ∷ docs) = (d.doc_id ≡ first) × Numbered (first + 1) docs

pub record IsSegment (s : WriteSegment) : Type 0 where
  pub positive : 0 < s.max_docs
  pub in_range : s.min_doc_id + s.max_docs ≤ 2 ^ 64
  pub room : length s.docs ≤ s.max_docs
  pub numbered : Numbered s.min_doc_id s.docs

-- The segment that was asked for: its ID, the IDs that it reserves, the first of them next, and no document
pub record Serves (id min_doc_id max_docs : ℕ) (s : WriteSegment) : Type 0 where
  pub named : s.id ≡ id
  pub reserved : reserved_range s ≡ (min_doc_id, min_doc_id + max_docs - 1)
  pub next_id : next_document_id s ≡ ok min_doc_id
  pub empty : (doc_id : ℕ) → document s doc_id ≡ none
  pub well_formed : IsSegment s

abbrev pub Fits : ℕ → ℕ → Type 0
Fits min_doc_id max_docs = (0 < max_docs) × (min_doc_id + max_docs ≤ 2 ^ 64)

-- A segment for IDs that are at least one and all below 2^64, and an error for all others
abbrev pub Makes : ℕ → ℕ → ℕ → Result WriteSegment → Type 0
Makes id min_doc_id max_docs r =
    (Fits min_doc_id max_docs × ((s : WriteSegment) × (r ≡ ok s) × Serves id min_doc_id max_docs s))
    ⊎ ((¬ Fits min_doc_id max_docs) × ((e : Error) × (r ≡ err e)))

made-Serves :
    (id min_doc_id max_docs : ℕ)
    → Fits min_doc_id max_docs
    → Serves id min_doc_id max_docs (record {
      id = id;
      min_doc_id = min_doc_id;
      max_docs = max_docs;
      docs = [];
      sealed = false;
    })
unfolding reserved_range next_document_id document
made-Serves id min_doc_id max_docs (pos, fits) =
    let wraps : (min_doc_id + max_docs + 2 ^ 64 - 1) % 2 ^ 64 ≡ min_doc_id + max_docs - 1 =
      omega arith in
    record {
      named = refl;
      reserved = ap (λ high. (min_doc_id, high)) wraps;
      next_id = ground arith;
      empty = λ doc_id. ground arith;
      well_formed = record { positive = pos; in_range = fits; room = omega arith; numbered = tt };
    }

-- `NewWriteSegment` from a first ID of 64 bits makes a segment if and only if it has room for a document
-- and all the IDs that it reserves, as many as its capacity from the first ID on, are below 2^64. The
-- segment has the given ID, holds no document, and gives the first ID to the next one.
pub new_write_segment_lem :
    (id min_doc_id max_docs : ℕ)
    → min_doc_id < 2 ^ 64
    → Makes id min_doc_id max_docs (new_write_segment id min_doc_id max_docs)
unfolding new_write_segment
new_write_segment_lem id min_doc_id max_docs h = elim (Bool-cases (max_docs == 0)) [
  | inl none_asked ↦ inr ((λ (pos, fits). ground arith), (zero_capacity, ground arith))
  | inr some_asked ↦ elim (Bool-cases (ltb (max_uint64 - min_doc_id) (max_docs - 1))) [
    | inl past ↦ inr ((λ (pos, fits). ground arith), (document_range_overflow, ground arith))
    | inr within ↦
        let fits : Fits min_doc_id max_docs = (ground arith, ground arith) in
        inl (fits, (_, ground arith, made-Serves id min_doc_id max_docs fits))
  ]
]

Numbered-snoc :
    (first : ℕ) (docs : List StoredDocument) (d : StoredDocument)
    → Numbered first docs
    → d.doc_id ≡ first + length docs
    → Numbered first (docs ++ (d ∷ []))
Numbered-snoc first [] d n e = (omega arith, tt)
Numbered-snoc first (x ∷ docs) d (ex, n) e = (ex, Numbered-snoc (first + 1) docs d n (omega arith))

-- What a successful append has done.
pub record Appended (s : WriteSegment) (primary_key payload : List ℕ) (s' : WriteSegment)
    (d : StoredDocument) : Type 0 where
  pub kept : IsSegment s'
  pub next_id : next_document_id s ≡ ok d.doc_id
  pub key : d.primary_key ≡ primary_key
  pub content : d.payload ≡ payload
  pub found : document s' d.doc_id ≡ some d
  pub others : (doc_id : ℕ) → doc_id ≢ d.doc_id → document s' doc_id ≡ document s doc_id
  pub bounded : d.doc_id < s.min_doc_id + s.max_docs

append_document_eq :
    (ctx : Context) (expected : Option ℕ) (primary_key payload : List ℕ) (s s' : WriteSegment)
    (d : StoredDocument)
    → IsSegment s
    → append_document ctx expected primary_key payload s ≡ ok (s', d)
    → (s' ≡ record s { docs = s.docs ++ (d ∷ []) })
      × (d ≡ record {
        doc_id = s.min_doc_id + length s.docs;
        primary_key = primary_key;
        payload = payload;
      })
      × (s.sealed ≡ false)
      × (length s.docs < s.max_docs)
unfolding append_document
append_document_eq ctx expected primary_key payload s s' d h e = ground arith

get_elem?-past : (docs : List StoredDocument) (i : ℕ) → length docs ≤ i → get_elem? docs i ≡ none
get_elem?-past [] i h = refl
get_elem?-past (x ∷ docs) zero h = absurd (omega arith)
get_elem?-past (x ∷ docs) (suc i) h = get_elem?-past docs i (omega arith)

module _ (s : WriteSegment) (d : StoredDocument)
    (at : d.doc_id ≡ s.min_doc_id + length s.docs) where
  document-snoc_self : document (record s { docs = s.docs ++ (d ∷ []) }) d.doc_id ≡ some d
  unfolding document
  document-snoc_self =
      let index : d.doc_id - s.min_doc_id ≡ length s.docs = omega arith in
      ground (arith, index, length-append s.docs (d ∷ []), get_elem?-append_length s.docs d [])

  document-snoc_ne :
      (doc_id : ℕ)
      → doc_id ≢ d.doc_id
      → document (record s { docs = s.docs ++ (d ∷ []) }) doc_id ≡ document s doc_id
  unfolding document
  document-snoc_ne doc_id ne = ground (
    arith,
    length-append s.docs (d ∷ []),
    get_elem?-append_left s.docs (d ∷ []) (doc_id - s.min_doc_id),
  )

-- A successful append to a well-formed write segment stores the key and the payload under the next
-- ID, which lies in the reserved range; the segment stays numbered without a gap, the new document
-- is found under its ID, and every other ID finds what it found before.
pub append_document-Appended :
    (ctx : Context) (expected : Option ℕ) (primary_key payload : List ℕ) (s s' : WriteSegment)
    (d : StoredDocument)
    → IsSegment s
    → append_document ctx expected primary_key payload s ≡ ok (s', d)
    → Appended s primary_key payload s' d
append_document-Appended ctx expected primary_key payload s s' d h e =
    let (now, shape, opened, below) =
      append_document_eq ctx expected primary_key payload s s' d h e in
    let at : d.doc_id ≡ s.min_doc_id + length s.docs = rw shape refl in
    record {
      kept = rw now (record {
        positive = h.positive;
        in_range = h.in_range;
        room = omega (arith, length-append s.docs (d ∷ []));
        numbered = Numbered-snoc s.min_doc_id s.docs d h.numbered at;
      });
      next_id = unfold next_document_id in ground (arith, at, opened, below, h.in_range);
      key = rw shape refl;
      content = rw shape refl;
      found = rw now (document-snoc_self s d at);
      others = λ doc_id ne. rw now (document-snoc_ne s d at doc_id ne);
      bounded = omega arith;
    }

-- The expected ID is the one that the document gets.
append_expected_lem :
    (ctx : Context) (expected : ℕ) (primary_key payload : List ℕ) (s s' : WriteSegment)
    (d : StoredDocument)
    → append_expected ctx expected primary_key payload s ≡ ok (s', d)
    → d.doc_id ≡ expected
unfolding append_expected append_document
append_expected_lem ctx expected primary_key payload s s' d e = ground arith

Numbered-get :
    (first i : ℕ) (docs : List StoredDocument) (d : StoredDocument)
    → Numbered first docs
    → get_elem? docs i ≡ some d
    → d.doc_id ≡ first + i
Numbered-get first i [] d n e = cc
Numbered-get first zero (x ∷ docs) d (ex, n) e = ground arith
Numbered-get first (suc i) (x ∷ docs) d (ex, n) e =
    omega (arith, Numbered-get (first + 1) i docs d n e)

last_doc_id_lem :
    (first : ℕ) (d : StoredDocument) (docs : List StoredDocument)
    → Numbered first (d ∷ docs)
    → last_doc_id d docs ≡ first + length docs
unfolding last_doc_id
last_doc_id_lem first d [] (e, n) = omega arith
last_doc_id_lem first d (x ∷ docs) (e, n) = omega (arith, last_doc_id_lem (first + 1) x docs n)

module _ (s : WriteSegment) (files : List (List ℕ)) (doc_id : ℕ) where
  agree :
      (docs : List StoredDocument)
      → Numbered s.min_doc_id docs
      → immutable_document
          (record { metadata = segment_metadata s.id docs files; docs = docs })
          doc_id
        ≡ document (record s { docs = docs }) doc_id
  unfolding immutable_document document segment_metadata
  agree [] n = ground arith
  agree (d ∷ docs) (e, n) = elim (Option-cases (get_elem? (d ∷ docs) (doc_id - s.min_doc_id))) [
    | inl missing ↦ ground (arith, missing, last_doc_id_lem s.min_doc_id d docs (e, n))
    | inr (x, found) ↦ ground (
      arith,
      found,
      last_doc_id_lem s.min_doc_id d docs (e, n),
      Numbered-get s.min_doc_id (doc_id - s.min_doc_id) (d ∷ docs) x (e, n) found,
      get_elem?-past (d ∷ docs) (doc_id - s.min_doc_id),
    )
  ]

  -- The immutable segment made from the documents of a well-formed write segment finds the same
  -- document, or none, under every ID.
  pub immutable_document-document :
      IsSegment s
      → immutable_document
          (record { metadata = segment_metadata s.id s.docs files; docs = s.docs })
          doc_id
        ≡ document s doc_id
  immutable_document-document h = agree s.docs h.numbered
