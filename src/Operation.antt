-- ===== src/Operation.antt =====
-- internal/db/write_engine.go: the operations that the write-ahead log carries, and their bytes.
pub mod RoundTrip
use zvec.Base.{
  ℕ, ◌+◌, ◌-◌, List, [], ◌∷◌, ◌++◌, ◌||◌, not, Option, none, some, length, take, drop, slice,
  put_at, replicate, le_bytes, from_le, bytes_equal, ltb, ◌==◌, if◌then◌else◌,
}
use zvec.Errors.{
  Result, ok, err, ◌>>=◌, ◌>>◌, reject, unsupported_format_version, payload_too_large,
  truncated_operation, invalid_operation_magic, invalid_operation_type, invalid_operation_lengths,
  operation_checksum_mismatch,
}
use zvec.Go.Checksum.{crc32c, update_crc32c}
use zvec.PrimaryMap.{validate_primary_key, max_primary_key_bytes}
use zvec.Segment.{max_document_payload_size}

abbrev write_operation_version : ℕ
write_operation_version = 1

abbrev write_operation_header_size : ℕ
write_operation_header_size = 32

-- "ZOP1"
abbrev pub write_operation_magic : List ℕ
write_operation_magic = 0x5a ∷ 0x4f ∷ 0x50 ∷ 0x31 ∷ []

-- The four values of `writeOperationType` that the encoder accepts.
pub data WriteOperationType : Type 0 where
  insert upsert update delete : WriteOperationType

pub type_byte : WriteOperationType → ℕ
type_byte insert = 1
type_byte upsert = 2
type_byte update = 3
type_byte delete = 4

type_of : ℕ → Result WriteOperationType
type_of b =
    if b == 1
    then ok insert
    else if b == 2
    then ok upsert
    else if b == 3
    then ok update
    else if b == 4
    then ok delete
    else err invalid_operation_type

pub record WriteOperation : Type 0 where
  pub operation_type : WriteOperationType
  pub segment_id : ℕ
  pub doc_id : ℕ
  pub primary_key : List ℕ
  pub payload : List ℕ

unfoldable pub operation_header : WriteOperation → List ℕ
operation_header operation =
    let magic = put_at 0 write_operation_magic (replicate 32 0) in
    let version = put_at 4 (le_bytes 2 write_operation_version) magic in
    let typed = put_at 6 (type_byte operation.operation_type ∷ []) version in
    let segment = put_at 8 (le_bytes 8 operation.segment_id) typed in
    let document = put_at 16 (le_bytes 8 operation.doc_id) segment in
    let key_length = put_at 24 (le_bytes 4 (length operation.primary_key)) document in
    put_at 28 (le_bytes 4 (length operation.payload)) key_length

pub operation_checksum : WriteOperation → ℕ
operation_checksum operation =
    update_crc32c (crc32c (operation_header operation)) (operation.primary_key ++ operation.payload)

unfoldable pub operation_bytes : WriteOperation → List ℕ
operation_bytes operation =
    operation_header operation
    ++ (le_bytes 4 (operation_checksum operation) ++ (operation.primary_key ++ operation.payload))

unfoldable pub encode_write_operation : WriteOperation → Result (List ℕ)
encode_write_operation operation = do
  validate_primary_key operation.primary_key
  reject (ltb max_document_payload_size (length operation.payload)) payload_too_large
  ok (operation_bytes operation)

pub decode_write_operation : List ℕ → Result WriteOperation
decode_write_operation encoded = do
  reject (ltb (length encoded) (write_operation_header_size + 4)) truncated_operation
  reject (not (bytes_equal (take 4 encoded) write_operation_magic)) invalid_operation_magic
  reject (not (from_le (slice 4 6 encoded) == write_operation_version)) unsupported_format_version
  operation_type ← type_of (from_le (slice 6 7 encoded))
  reject (not (from_le (slice 7 8 encoded) == 0)) invalid_operation_type
  let key_length = from_le (slice 24 28 encoded)
  let payload_length = from_le (slice 28 32 encoded)
  reject
      (key_length == 0
        || (ltb max_primary_key_bytes key_length
            || (ltb max_document_payload_size payload_length
                || not (
                    key_length + payload_length
                    == length encoded - write_operation_header_size - 4))))
      invalid_operation_lengths
  reject
      (not (
        update_crc32c (crc32c (take write_operation_header_size encoded)) (drop 36 encoded)
        == from_le (slice 32 36 encoded)))
      operation_checksum_mismatch
  let primary_key = take key_length (drop 36 encoded)
  validate_primary_key primary_key
  ok (record {
    operation_type = operation_type;
    segment_id = from_le (slice 8 16 encoded);
    doc_id = from_le (slice 16 24 encoded);
    primary_key = primary_key;
    payload = drop key_length (drop 36 encoded);
  })
