-- ===== src/Segment.antt =====
-- internal/db/segment.go: documents, the write segment and the immutable segment. `Clone` is no
-- operation on values. Methods on a nil segment are not modelled.
pub mod Laws
pub mod Codec
use zvec.Base.{
  ℕ, zero, suc, ◌+◌, ◌-◌, ◌%◌, ◌^◌, List, [], ◌∷◌, ◌++◌, Bool, true, false, not, ◌||◌, ◌&&◌, Option,
  none, some, length, get_elem?, ltb, leb, ◌==◌, if◌then◌else◌, bytes_equal,
}
use zvec.Errors.{
  Error, Result, ok, err, ◌>>=◌, ◌>>◌, reject, Context, check_context, segment_sealed, segment_full,
  payload_too_large, unexpected_document_id, zero_capacity, document_range_overflow,
}
use zvec.PrimaryMap.{validate_primary_key}

-- 64 << 20
abbrev pub max_document_payload_size : ℕ
max_document_payload_size = 67108864

abbrev pub max_uint64 : ℕ
max_uint64 = 18446744073709551615

pub record StoredDocument : Type 0 where
  pub doc_id : ℕ
  pub primary_key : List ℕ
  pub payload : List ℕ

-- manifest.go: what a manifest says of one segment.
pub record SegmentMetadata : Type 0 where
  pub id : ℕ
  pub min_doc_id : ℕ
  pub max_doc_id : ℕ
  pub doc_count : ℕ
  pub files : List (List ℕ)

pub record WriteSegment : Type 0 where
  pub id : ℕ
  pub min_doc_id : ℕ
  pub max_docs : ℕ
  pub docs : List StoredDocument
  pub sealed : Bool

pub record ImmutableSegment : Type 0 where
  pub metadata : SegmentMetadata
  pub docs : List StoredDocument

unfoldable pub new_write_segment : ℕ → ℕ → ℕ → Result WriteSegment
new_write_segment id min_doc_id max_docs = do
  reject (max_docs == 0) zero_capacity
  reject (ltb (max_uint64 - min_doc_id) (max_docs - 1)) document_range_overflow
  ok (record { id = id; min_doc_id = min_doc_id; max_docs = max_docs; docs = []; sealed = false })

-- The inclusive range; its end does not wrap in a segment from `NewWriteSegment`.
unfoldable pub reserved_range : WriteSegment → ℕ × ℕ
reserved_range s = (s.min_doc_id, (s.min_doc_id + s.max_docs + 2 ^ 64 - 1) % 2 ^ 64)

unfoldable pub next_document_id : WriteSegment → Result ℕ
next_document_id s = do
  reject s.sealed segment_sealed
  reject (leb s.max_docs (length s.docs)) segment_full
  ok ((s.min_doc_id + length s.docs) % 2 ^ 64)

-- `expectedDocID != nil && *expectedDocID != nextDocID`
unfoldable pub unexpected : Option ℕ → ℕ → Bool
unexpected none next_doc_id = false
unexpected (some expected) next_doc_id = not (expected == next_doc_id)

-- The segment with the new document, and the document.
unfoldable pub append_document :
    Context → Option ℕ → List ℕ → List ℕ → WriteSegment → Result (WriteSegment × StoredDocument)
unfolding unexpected
append_document ctx expected primary_key payload s = do
  check_context ctx
  validate_primary_key primary_key
  reject (ltb max_document_payload_size (length payload)) payload_too_large
  reject s.sealed segment_sealed
  reject (leb s.max_docs (length s.docs)) segment_full
  let next_doc_id = (s.min_doc_id + length s.docs) % 2 ^ 64
  reject (unexpected expected next_doc_id) unexpected_document_id
  let doc : StoredDocument = record {
    doc_id = next_doc_id;
    primary_key = primary_key;
    payload = payload;
  }
  ok (record s { docs = s.docs ++ (doc ∷ []) }, doc)

unfoldable pub append :
    Context → List ℕ → List ℕ → WriteSegment → Result (WriteSegment × StoredDocument)
append ctx primary_key payload s = append_document ctx none primary_key payload s

unfoldable pub append_expected :
    Context → ℕ → List ℕ → List ℕ → WriteSegment → Result (WriteSegment × StoredDocument)
append_expected ctx expected_doc_id primary_key payload s =
    append_document ctx (some expected_doc_id) primary_key payload s

unfoldable pub document : WriteSegment → ℕ → Option StoredDocument
document s doc_id =
    if ltb doc_id s.min_doc_id || leb (length s.docs) (doc_id - s.min_doc_id)
    then none
    else get_elem? s.docs (doc_id - s.min_doc_id)

last_doc_id : StoredDocument → List StoredDocument → ℕ
last_doc_id d [] = d.doc_id
last_doc_id d (e ∷ docs) = last_doc_id e docs

unfoldable pub segment_metadata : ℕ → List StoredDocument → List (List ℕ) → SegmentMetadata
unfolding last_doc_id
segment_metadata id [] files = record {
  id = id;
  min_doc_id = 0;
  max_doc_id = 0;
  doc_count = 0;
  files = files;
}
segment_metadata id (d ∷ docs) files = record {
  id = id;
  min_doc_id = d.doc_id;
  max_doc_id = last_doc_id d docs;
  doc_count = suc (length docs);
  files = files;
}

-- (*WriteSegment).Metadata
unfoldable pub metadata_of : WriteSegment → SegmentMetadata
metadata_of s = segment_metadata s.id s.docs []

pub immutable_document : ImmutableSegment → ℕ → Option StoredDocument
immutable_document s doc_id =
    if ltb doc_id s.metadata.min_doc_id || ltb s.metadata.max_doc_id doc_id
    then none
    else elim (get_elem? s.docs (doc_id - s.metadata.min_doc_id)) [
      | none ↦ none
      | some d ↦ if d.doc_id == doc_id then some d else none
    ]

abbrev pub segment_record_header_size : ℕ
segment_record_header_size = 24

-- The loop of `storedDocumentsMemoryBytes`, which stops at the top of uint64.
unfoldable pub stored_documents_memory_bytes : ℕ → List StoredDocument → ℕ
stored_documents_memory_bytes total [] = total
stored_documents_memory_bytes total (d ∷ docs) =
    let size = segment_record_header_size + length d.primary_key + length d.payload in
    let rest = stored_documents_memory_bytes (total + size) docs in
    if ltb (max_uint64 - total) size then max_uint64 else rest
