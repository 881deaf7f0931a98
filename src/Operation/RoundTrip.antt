-- ===== src/Operation/RoundTrip.antt =====
-- internal/db/write_engine.go: the codec of the operations in the log.
use zvec.Base.{
  ℕ, ◌+◌, ◌≤◌, ◌<◌, ◌^◌, ◌≡◌, refl, List, [], ◌∷◌, ◌++◌, true, length, length-append, take, drop,
  take-append_length, drop-append_length, slice, from_le, from_le-le_bytes, bytes_equal, arith,
}
use zvec.Errors.{ok}
use zvec.Go.Checksum.{update_crc32c-lt}
use zvec.PrimaryMap.{validate_primary_key, max_primary_key_bytes}
use zvec.Operation.{
  WriteOperation, WriteOperationType, insert, upsert, update, delete, type_byte, type_of,
  operation_header, operation_checksum, operation_bytes, encode_write_operation,
  decode_write_operation, write_operation_magic,
}
use zvec.Segment.{max_document_payload_size}

pub validate_primary_key_fits :
    (key : List ℕ) (u : Unit {0})
    → validate_primary_key key ≡ ok u
    → (0 < length key) × (length key ≤ max_primary_key_bytes)
unfolding validate_primary_key
validate_primary_key_fits key u e = ground arith

-- What `encodeWriteOperation` accepts, with identifiers of 64 bits.
pub record IsOperation (o : WriteOperation) : Type 0 where
  pub segment_word : o.segment_id < 2 ^ 64
  pub document_word : o.doc_id < 2 ^ 64
  pub key_valid : validate_primary_key o.primary_key ≡ ok tt
  pub payload_fits : length o.payload ≤ max_document_payload_size

type_of-type_byte : (t : WriteOperationType) → type_of (from_le (type_byte t ∷ [])) ≡ ok t
unfolding type_of type_byte from_le
type_of-type_byte insert = refl
type_of-type_byte upsert = refl
type_of-type_byte update = refl
type_of-type_byte delete = refl

module _ (o : WriteOperation) where
  pub length-operation_bytes :
      length (operation_bytes o) ≡ 36 + length o.primary_key + length o.payload
  unfolding operation_bytes operation_header
  length-operation_bytes = omega (arith, length-append o.primary_key o.payload)

  operation_constants :
      (bytes_equal (take 4 (operation_bytes o)) write_operation_magic ≡ true)
      × (from_le (slice 4 6 (operation_bytes o)) ≡ 1)
      × (from_le (slice 7 8 (operation_bytes o)) ≡ 0)
      × (type_of (from_le (slice 6 7 (operation_bytes o))) ≡ ok o.operation_type)
      × (take 32 (operation_bytes o) ≡ operation_header o)
      × (drop 36 (operation_bytes o) ≡ o.primary_key ++ o.payload)
  unfolding operation_bytes operation_header from_le bytes_equal
  operation_constants = (refl, refl, refl, type_of-type_byte o.operation_type, refl, refl)

  operation_words :
      IsOperation o
      → (from_le (slice 8 16 (operation_bytes o)) ≡ o.segment_id)
        × (from_le (slice 16 24 (operation_bytes o)) ≡ o.doc_id)
        × (from_le (slice 24 28 (operation_bytes o)) ≡ length o.primary_key)
        × (from_le (slice 28 32 (operation_bytes o)) ≡ length o.payload)
        × (from_le (slice 32 36 (operation_bytes o)) ≡ operation_checksum o)
  unfolding operation_bytes operation_header
  operation_words h =
      let (pos, short) = validate_primary_key_fits o.primary_key tt h.key_valid in
      (
        from_le-le_bytes 8 o.segment_id (omega (arith, h.segment_word)),
        from_le-le_bytes 8 o.doc_id (omega (arith, h.document_word)),
        from_le-le_bytes 4 (length o.primary_key) (omega arith),
        from_le-le_bytes 4 (length o.payload) (omega (arith, h.payload_fits)),
        from_le-le_bytes 4 (operation_checksum o)
            (unfold operation_checksum in update_crc32c-lt _ _),
      )

  -- Every operation with 64-bit identifiers, a valid primary key and a payload of at most 64 MiB is
  -- encoded, whatever its type, and decodes to itself.
  pub decode-encode_write_operation :
      IsOperation o
      → (encode_write_operation o ≡ ok (operation_bytes o))
        × (decode_write_operation (operation_bytes o) ≡ ok o)
  unfolding encode_write_operation decode_write_operation operation_checksum
  decode-encode_write_operation h =
      let (pos, short) = validate_primary_key_fits o.primary_key tt h.key_valid in
      (
        ground (arith, h.key_valid, h.payload_fits),
        ground (
          arith,
          h.key_valid,
          h.payload_fits,
          length-operation_bytes,
          operation_constants,
          operation_words h,
          take-append_length o.primary_key o.payload,
          drop-append_length o.primary_key o.payload,
        ),
      )
