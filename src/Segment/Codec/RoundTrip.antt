-- ===== src/Segment/Codec/RoundTrip.antt =====
-- internal/db/segment.go: encoding and decoding a segment.
use zvec.Base.{
  ℕ, suc, ◌+◌, ◌-◌, ◌%◌, ◌≤◌, ◌<◌, ◌^◌, ◌≡◌, refl, List, [], ◌∷◌, ◌++◌, Bool, true, false, length,
  length-append, take, drop, slice, from_le, from_le-le_bytes, bytes_equal, ltb, ◌==◌,
  take-append_length, drop-append_length, arith,
}
use zvec.Errors.{ok}
use zvec.Go.Checksum.{crc32c, crc32c-lt, update_crc32c-lt}
use zvec.PrimaryMap.{validate_primary_key}
use zvec.Operation.RoundTrip.{validate_primary_key_fits}
use zvec.Segment.{StoredDocument, SegmentMetadata}
use zvec.Segment.Codec.{
  validate_stored_document, check_documents, document_checksum, document_header, segment_records,
  segment_fields, segment_header, encode_segment, decode_document, decode_documents, decode_segment,
  check_segment_bytes, metadata_from, decode_contents, segment_magic,
}

abbrev pub never : ℕ → Bool
never n = false

module _ (doc : StoredDocument) (rest : List ℕ) where
  record_bytes : List ℕ
  record_bytes = document_header doc ++ (doc.primary_key ++ (doc.payload ++ rest))

  length-record_bytes :
      length record_bytes ≡ 24 + length doc.primary_key + length doc.payload + length rest
  unfolding record_bytes document_header
  length-record_bytes =
      omega
        (arith, length-append doc.primary_key (doc.payload ++ rest), length-append doc.payload rest)

  record_constants :
      (from_le (slice 20 24 record_bytes) ≡ 0)
      × (drop 24 record_bytes ≡ doc.primary_key ++ (doc.payload ++ rest))
  unfolding record_bytes document_header from_le
  record_constants = (refl, refl)

  record_words :
      (expected : ℕ)
      → expected < 2 ^ 64
      → validate_stored_document doc expected ≡ ok tt
      → (from_le (take 8 record_bytes) ≡ doc.doc_id)
        × (from_le (slice 8 12 record_bytes) ≡ length doc.primary_key)
        × (from_le (slice 12 16 record_bytes) ≡ length doc.payload)
        × (from_le (slice 16 20 record_bytes) ≡ document_checksum doc.primary_key doc.payload)
        × (0 < length doc.primary_key)
        × (length doc.primary_key ≤ 65536)
        × (length doc.payload ≤ 67108864)
  unfolding record_bytes document_header validate_stored_document
  record_words expected word valid =
      let key_valid : validate_primary_key doc.primary_key ≡ ok tt = ground arith in
      let (pos, short) = validate_primary_key_fits doc.primary_key tt key_valid in
      let small : length doc.payload ≤ 67108864 = ground arith in
      let same : doc.doc_id ≡ expected = ground arith in
      (
        from_le-le_bytes 8 doc.doc_id (omega (arith, same)),
        from_le-le_bytes 4 (length doc.primary_key) (omega arith),
        from_le-le_bytes 4 (length doc.payload) (omega (arith, small)),
        from_le-le_bytes 4 (document_checksum doc.primary_key doc.payload)
            (unfold document_checksum in update_crc32c-lt _ _),
        pos,
        short,
        small,
      )

  decode_document-record :
      (expected : ℕ)
      → expected < 2 ^ 64
      → validate_stored_document doc expected ≡ ok tt
      → decode_document expected record_bytes ≡ ok (doc, rest)
  unfolding decode_document
  decode_document-record expected word valid = ground (
    arith,
    length-record_bytes,
    record_constants,
    record_words expected word valid,
    take-append_length doc.primary_key (doc.payload ++ rest),
    drop-append_length doc.primary_key (doc.payload ++ rest),
    take-append_length doc.payload rest,
    drop-append_length doc.payload rest,
    length-append doc.primary_key (doc.payload ++ rest),
    length-append doc.payload rest,
  )

check_documents-tail :
    (min_doc_id index total : ℕ) (doc : StoredDocument) (docs : List StoredDocument)
    → check_documents min_doc_id index total (doc ∷ docs) ≡ ok tt
    → (validate_stored_document doc ((min_doc_id + index) % 2 ^ 64) ≡ ok tt)
      × (total + 24 + length doc.primary_key + length doc.payload ≤ 4294967296)
      × (check_documents min_doc_id
            (suc index)
            (total + 24 + length doc.primary_key + length doc.payload)
            docs
          ≡ ok tt)
unfolding check_documents
check_documents-tail min_doc_id index total doc docs h = (ground arith, ground arith, ground arith)

decode_documents-records :
    (min_doc_id index total : ℕ) (docs : List StoredDocument)
    → check_documents min_doc_id index total docs ≡ ok tt
    → decode_documents never min_doc_id index (length docs) (segment_records docs) ≡ ok (docs, [])
unfolding decode_documents segment_records record_bytes
decode_documents-records min_doc_id index total [] h = refl
decode_documents-records min_doc_id index total (doc ∷ docs) h =
    let (valid, fits, rest) = check_documents-tail min_doc_id index total doc docs h in
    rw
      (
        decode_document-record doc (segment_records docs) ((min_doc_id + index) % 2 ^ 64)
            (omega arith) valid,
        decode_documents-records min_doc_id (suc index) _ docs rest,
      )
      refl

length-segment_records :
    (min_doc_id index total : ℕ) (docs : List StoredDocument)
    → check_documents min_doc_id index total docs ≡ ok tt
    → total ≤ 4294967296
    → total + length (segment_records docs) ≤ 4294967296
unfolding segment_records record_bytes
length-segment_records min_doc_id index total [] h b = omega arith
length-segment_records min_doc_id index total (doc ∷ docs) h b =
    let (valid, fits, rest) = check_documents-tail min_doc_id index total doc docs h in
    let later = length-segment_records min_doc_id (suc index) _ docs rest fits in
    omega (arith, later, length-record_bytes doc (segment_records docs))

long_enough : (n : ℕ) → ltb (64 + n) 64 ≡ false
long_enough n = ground arith

not_too_large : (n : ℕ) → n ≤ 4294967296 → ltb 4294967296 n ≡ false
not_too_large n h = ground arith

measured_right : (n : ℕ) → (n == 64 + n - 64) ≡ true
measured_right n = ground arith

==-refl : (n : ℕ) → (n == n) ≡ true
==-refl n = ground arith

-- The metadata of a contiguous range of words.
pub record IsRange (m : SegmentMetadata) : Type 0 where
  pub id_word : m.id < 2 ^ 64
  pub max_word : m.max_doc_id < 2 ^ 64
  pub contiguous : m.min_doc_id + m.doc_count ≡ m.max_doc_id + 1

module _ (m : SegmentMetadata) (payload : List ℕ) where
  segment_bytes : List ℕ
  segment_bytes = segment_header m payload ++ payload

  length-segment_bytes : length segment_bytes ≡ 64 + length payload
  unfolding segment_bytes segment_header
  length-segment_bytes = omega arith

  segment_constants :
      (bytes_equal (take 8 segment_bytes) segment_magic ≡ true)
      × (from_le (slice 8 10 segment_bytes) ≡ 1)
      × (from_le (slice 10 12 segment_bytes) ≡ 64)
      × (from_le (slice 12 16 segment_bytes) ≡ 0)
      × (drop 64 segment_bytes ≡ payload)
  unfolding segment_bytes segment_header from_le bytes_equal
  segment_constants = (refl, refl, refl, refl, refl)

  segment_words :
      IsRange m
      → (0 < m.doc_count) × (m.doc_count < 2 ^ 63)
      → length payload ≤ 4294967296
      → (from_le (slice 16 24 segment_bytes) ≡ m.id)
        × (from_le (slice 24 32 segment_bytes) ≡ m.min_doc_id)
        × (from_le (slice 32 40 segment_bytes) ≡ m.max_doc_id)
        × (from_le (slice 40 48 segment_bytes) ≡ m.doc_count)
        × (from_le (slice 48 56 segment_bytes) ≡ length payload)
        × (from_le (slice 56 60 segment_bytes) ≡ crc32c payload)
        × (from_le (slice 60 64 segment_bytes) ≡ crc32c (take 60 segment_bytes))
  unfolding segment_bytes segment_header
  segment_words r (pos, few) hp = (
    from_le-le_bytes 8 m.id (omega (arith, r.id_word)),
    from_le-le_bytes 8 m.min_doc_id (omega (arith, r.max_word, r.contiguous)),
    from_le-le_bytes 8 m.max_doc_id (omega (arith, r.max_word)),
    from_le-le_bytes 8 m.doc_count (omega arith),
    from_le-le_bytes 8 (length payload) (omega arith),
    from_le-le_bytes 4 (crc32c payload) (crc32c-lt payload),
    from_le-le_bytes 4 (crc32c (take 60 (segment_fields m payload))) (crc32c-lt _),
  )

  check-segment_bytes :
      IsRange m
      → (0 < m.doc_count) × (m.doc_count < 2 ^ 63)
      → length payload ≤ 4294967296
      → check_segment_bytes segment_bytes ≡ ok tt
  unfolding check_segment_bytes
  check-segment_bytes r few hp =
      let (magic, version, size, zeros, rest) = segment_constants in
      let (id, min, max, count, measured, payload_crc, header_crc) = segment_words r few hp in
      rw
        (magic, version, size, zeros, rest, measured, payload_crc, header_crc, length-segment_bytes)
        (rw
          (
            long_enough (length payload),
            ==-refl (crc32c _),
            not_too_large (length payload) hp,
            measured_right (length payload),
            ==-refl (crc32c payload),
          )
          refl)

  metadata-segment_bytes :
      IsRange m
      → (0 < m.doc_count) × (m.doc_count < 2 ^ 63)
      → length payload ≤ 4294967296
      → metadata_from segment_bytes ≡ record m { files = [] }
  unfolding metadata_from
  metadata-segment_bytes r few hp =
      let (id, min, max, count, measured, payload_crc, header_crc) = segment_words r few hp in
      rw (id, min, max, count) refl

  contents-segment :
      (docs : List StoredDocument)
      → IsRange m
      → (0 < m.doc_count) × (m.doc_count < 2 ^ 63)
      → decode_documents never m.min_doc_id 0 m.doc_count payload ≡ ok (docs, [])
      → decode_contents never (record m { files = [] }) payload ≡ ok (record m { files = [] }, docs)
  unfolding decode_contents
  contents-segment docs r few decoded = ground (arith, decoded, r.contiguous)

  decode-segment_bytes :
      (docs : List StoredDocument)
      → IsRange m
      → (0 < m.doc_count) × (m.doc_count < 2 ^ 63)
      → length payload ≤ 4294967296
      → decode_documents never m.min_doc_id 0 m.doc_count payload ≡ ok (docs, [])
      → decode_segment never segment_bytes ≡ ok (record m { files = [] }, docs)
  unfolding decode_segment
  decode-segment_bytes docs r few hp decoded =
      let (magic, version, size, zeros, rest) = segment_constants in
      rw (check-segment_bytes r few hp, metadata-segment_bytes r few hp, rest)
        (contents-segment docs r few decoded)

encoded_segment :
    (m : SegmentMetadata) (docs : List StoredDocument) (bytes : List ℕ)
    → encode_segment m docs ≡ ok bytes
    → (m.doc_count ≡ length docs)
      × (0 < length docs)
      × (check_documents m.min_doc_id 0 0 docs ≡ ok tt)
      × (bytes ≡ segment_bytes m (segment_records docs))
unfolding encode_segment segment_bytes
encoded_segment m docs bytes done = (ground arith, ground arith, ground arith, ground arith)

-- If encoding fewer than 2^63 documents under the metadata of a contiguous range of 64-bit IDs
-- succeeds, decoding the bytes under a context that stays live gives the documents and the metadata,
-- less the names of its files.
pub decode-encode_segment :
    (m : SegmentMetadata) (docs : List StoredDocument) (bytes : List ℕ)
    → IsRange m
    → length docs < 2 ^ 63
    → encode_segment m docs ≡ ok bytes
    → decode_segment never bytes ≡ ok (record m { files = [] }, docs)
decode-encode_segment m docs bytes r fits done =
    let (counted, pos, checked, same) = encoded_segment m docs bytes done in
    rw same (
      decode-segment_bytes m (segment_records docs) docs r
        (omega (arith, counted, pos), omega (arith, counted))
        (omega (arith, length-segment_records m.min_doc_id 0 0 docs checked (omega arith)))
        (rw counted (decode_documents-records m.min_doc_id 0 0 docs checked)))
