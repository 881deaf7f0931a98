-- ===== src/Segment/Codec.antt =====
-- internal/db/segment.go: `encodeSegment` and `decodeSegment`. A slice of the payload from an offset on
-- is what is left of it, so the offset itself is not kept.
pub mod RoundTrip
use zvec.Base.{
  ℕ, zero, suc, ◌+◌, ◌-◌, ◌%◌, ◌^◌, List, [], ◌∷◌, ◌++◌, Bool, true, false, not, ◌||◌, length, take,
  drop, slice, put_at, replicate, le_bytes, from_le, bytes_equal, ltb, leb, ◌==◌,
}
use zvec.Errors.{
  Result, ok, ◌>>=◌, ◌>>◌, reject, wrap, cancelled, segment_corrupt, segment_too_large,
  unsupported_format_version, invalid_document_count, unexpected_document_id, payload_too_large,
}
use zvec.Go.Checksum.{crc32c, update_crc32c}
use zvec.PrimaryMap.{validate_primary_key, max_primary_key_bytes}
use zvec.Segment.{
  StoredDocument, SegmentMetadata, max_document_payload_size, segment_record_header_size,
}

abbrev segment_codec_version : ℕ
segment_codec_version = 1

abbrev segment_header_size : ℕ
segment_header_size = 64

-- 4 << 30
abbrev max_segment_payload_size : ℕ
max_segment_payload_size = 4294967296

-- math.MaxInt of a 64-bit platform
abbrev max_int : ℕ
max_int = 9223372036854775807

-- "ZVECSEG\0"
abbrev pub segment_magic : List ℕ
segment_magic = 0x5a ∷ 0x56 ∷ 0x45 ∷ 0x43 ∷ 0x53 ∷ 0x45 ∷ 0x47 ∷ 0 ∷ []

unfoldable pub validate_stored_document : StoredDocument → ℕ → Result (Unit {0})
validate_stored_document doc expected_doc_id = do
  reject (not (doc.doc_id == expected_doc_id)) unexpected_document_id
  validate_primary_key doc.primary_key
  reject (ltb max_document_payload_size (length doc.payload)) payload_too_large

-- The first loop of `encodeSegment`, with the length of the records so far.
unfoldable pub check_documents : ℕ → ℕ → ℕ → List StoredDocument → Result (Unit {0})
check_documents min_doc_id index payload_length [] = ok tt
check_documents min_doc_id index payload_length (doc ∷ docs) =
    let total =
      payload_length + segment_record_header_size + length doc.primary_key + length doc.payload in
    do
      validate_stored_document doc ((min_doc_id + index) % 2 ^ 64)
      reject (ltb max_segment_payload_size total || ltb max_int total) segment_too_large
      check_documents min_doc_id (suc index) total docs

document_checksum : List ℕ → List ℕ → ℕ
document_checksum key payload = update_crc32c (crc32c key) payload

document_header : StoredDocument → List ℕ
document_header doc =
    let id = put_at 0 (le_bytes 8 doc.doc_id) (replicate 24 0) in
    let key = put_at 8 (le_bytes 4 (length doc.primary_key)) id in
    let size = put_at 12 (le_bytes 4 (length doc.payload)) key in
    put_at 16 (le_bytes 4 (document_checksum doc.primary_key doc.payload)) size

-- The second loop of `encodeSegment`.
pub segment_records : List StoredDocument → List ℕ
segment_records [] = []
segment_records (doc ∷ docs) =
    document_header doc ++ (doc.primary_key ++ (doc.payload ++ segment_records docs))

-- Bytes 0 to 60, all that the header's own checksum covers.
segment_fields : SegmentMetadata → List ℕ → List ℕ
segment_fields metadata payload =
    let magic = put_at 0 segment_magic (replicate 64 0) in
    let version = put_at 8 (le_bytes 2 segment_codec_version) magic in
    let size = put_at 10 (le_bytes 2 segment_header_size) version in
    let id = put_at 16 (le_bytes 8 metadata.id) size in
    let first = put_at 24 (le_bytes 8 metadata.min_doc_id) id in
    let last = put_at 32 (le_bytes 8 metadata.max_doc_id) first in
    let count = put_at 40 (le_bytes 8 metadata.doc_count) last in
    let measured = put_at 48 (le_bytes 8 (length payload)) count in
    put_at 56 (le_bytes 4 (crc32c payload)) measured

pub segment_header : SegmentMetadata → List ℕ → List ℕ
unfolding segment_fields
segment_header metadata payload =
    let fields = segment_fields metadata payload in
    put_at 60 (le_bytes 4 (crc32c (take 60 fields))) fields

unfoldable pub encode_segment : SegmentMetadata → List StoredDocument → Result (List ℕ)
encode_segment metadata docs = do
  reject (length docs == 0 || not (metadata.doc_count == length docs)) invalid_document_count
  check_documents metadata.min_doc_id 0 0 docs
  let payload = segment_records docs
  ok (segment_header metadata payload ++ payload)

-- One round of the loop of `decodeSegment`: the document of a record, and what is left of the payload.
pub decode_document : ℕ → List ℕ → Result (StoredDocument × List ℕ)
decode_document expected_doc_id payload = do
  reject (ltb (length payload) segment_record_header_size) segment_corrupt
  let key_length = from_le (slice 8 12 payload)
  let document_length = from_le (slice 12 16 payload)
  reject (not (from_le (slice 20 24 payload) == 0)) segment_corrupt
  let rest = drop segment_record_header_size payload
  reject
      (key_length == 0
        || ltb max_primary_key_bytes key_length
        || ltb max_document_payload_size document_length
        || ltb (length rest) (key_length + document_length))
      segment_corrupt
  let key = take key_length rest
  let document_payload = take document_length (drop key_length rest)
  reject (not (document_checksum key document_payload == from_le (slice 16 20 payload)))
      segment_corrupt
  let doc : StoredDocument = record {
    doc_id = from_le (take 8 payload);
    primary_key = key;
    payload = document_payload;
  }
  wrap segment_corrupt (validate_stored_document doc expected_doc_id)
  ok (doc, drop document_length (drop key_length rest))

-- The loop, `count` rounds from `index` on; `done n` tells whether the context is done in round `n`.
pub decode_documents : (ℕ → Bool) → ℕ → ℕ → ℕ → List ℕ → Result (List StoredDocument × List ℕ)
decode_documents done min_doc_id index zero payload = ok ([], payload)
decode_documents done min_doc_id index (suc count) payload = do
  reject (done index) cancelled
  (doc, rest) ← decode_document ((min_doc_id + index) % 2 ^ 64) payload
  (docs, left) ← decode_documents done min_doc_id (suc index) count rest
  ok (doc ∷ docs, left)

-- The tests of `decodeSegment` up to the checksum of the payload.
pub check_segment_bytes : List ℕ → Result (Unit {0})
check_segment_bytes encoded = do
  reject (ltb (length encoded) segment_header_size) segment_corrupt
  reject (not (bytes_equal (take 8 encoded) segment_magic)) segment_corrupt
  reject (not (from_le (slice 8 10 encoded) == segment_codec_version)) unsupported_format_version
  reject (not (from_le (slice 10 12 encoded) == segment_header_size)) segment_corrupt
  reject (not (from_le (slice 12 16 encoded) == 0)) segment_corrupt
  reject (not (crc32c (take 60 encoded) == from_le (slice 60 64 encoded))) segment_corrupt
  let payload_length = from_le (slice 48 56 encoded)
  reject
      (ltb max_segment_payload_size payload_length
        || not (payload_length == length encoded - segment_header_size))
      segment_corrupt
  reject (not (crc32c (drop segment_header_size encoded) == from_le (slice 56 60 encoded)))
      segment_corrupt

pub metadata_from : List ℕ → SegmentMetadata
metadata_from encoded = record {
  id = from_le (slice 16 24 encoded);
  min_doc_id = from_le (slice 24 32 encoded);
  max_doc_id = from_le (slice 32 40 encoded);
  doc_count = from_le (slice 40 48 encoded);
  files = [];
}

-- `decodeSegment` from its test of the document count on.
pub decode_contents :
    (ℕ → Bool) → SegmentMetadata → List ℕ → Result (SegmentMetadata × List StoredDocument)
decode_contents done metadata payload = do
  reject (metadata.doc_count == 0 || ltb max_int metadata.doc_count) segment_corrupt
  reject
      (ltb metadata.max_doc_id metadata.min_doc_id
        || not (metadata.doc_count - 1 == metadata.max_doc_id - metadata.min_doc_id))
      segment_corrupt
  (docs, left) ← decode_documents done metadata.min_doc_id 0 metadata.doc_count payload
  reject (not (length left == 0)) segment_corrupt
  ok (metadata, docs)

pub decode_segment : (ℕ → Bool) → List ℕ → Result (SegmentMetadata × List StoredDocument)
decode_segment done encoded = do
  check_segment_bytes encoded
  decode_contents done (metadata_from encoded) (drop segment_header_size encoded)
