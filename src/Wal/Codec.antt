-- ===== src/Wal/Codec.antt =====
-- internal/db/wal.go: the file header and the record header. Each is a buffer of zeros into which
-- the fields are put at their offsets.
pub mod Laws
pub mod Canonical
use zvec.Base.{
  ℕ, ◌+◌, List, [], ◌∷◌, ◌++◌, ◌||◌, not, length, take, slice, put_at, replicate, le_bytes, from_le,
  bytes_equal, ltb, ◌==◌,
}
use zvec.Errors.{
  Result, ok, ◌>>=◌, ◌>>◌, reject, wal_corrupt, unsupported_format_version, invalid_record_length,
  invalid_record_magic, unsupported_record_version, invalid_record_header_size, wrong_lsn,
  invalid_payload_length, nonzero_reserved, header_checksum_mismatch,
}
use zvec.Go.Checksum.{crc32c}

abbrev wal_format_version : ℕ
wal_format_version = 1

abbrev pub wal_file_header_size : ℕ
wal_file_header_size = 32

abbrev pub wal_record_header_size : ℕ
wal_record_header_size = 32

-- 4 << 20
abbrev pub max_wal_record_size : ℕ
max_wal_record_size = 4194304

-- "ZVECWAL\0" and "ZREC"
abbrev wal_magic : List ℕ
wal_magic = 0x5a ∷ 0x56 ∷ 0x45 ∷ 0x43 ∷ 0x57 ∷ 0x41 ∷ 0x4c ∷ 0 ∷ []

abbrev wal_record_magic : List ℕ
wal_record_magic = 0x5a ∷ 0x52 ∷ 0x45 ∷ 0x43 ∷ []

pub record WalRecordMetadata : Type 0 where
  pub lsn : ℕ
  pub payload_length : ℕ
  pub payload_crc : ℕ

unfoldable pub encode_wal_file_header : List ℕ
encode_wal_file_header =
    let magic = put_at 0 wal_magic (replicate 32 0) in
    let version = put_at 8 (le_bytes 2 wal_format_version) magic in
    let size = put_at 10 (le_bytes 2 wal_file_header_size) version in
    let maximum = put_at 12 (le_bytes 4 max_wal_record_size) size in
    put_at 24 (le_bytes 4 (crc32c (take 24 maximum))) maximum

pub validate_wal_file_header : List ℕ → Result (Unit {0})
validate_wal_file_header header = do
  reject (not (length header == wal_file_header_size)) wal_corrupt
  reject (not (bytes_equal (take 8 header) wal_magic)) wal_corrupt
  reject (not (from_le (slice 8 10 header) == wal_format_version)) unsupported_format_version
  reject (not (from_le (slice 10 12 header) == wal_file_header_size)) wal_corrupt
  reject (not (from_le (slice 12 16 header) == max_wal_record_size)) wal_corrupt
  reject (not (from_le (slice 16 24 header) == 0) || not (from_le (slice 28 32 header) == 0))
      wal_corrupt
  reject (not (crc32c (take 24 header) == from_le (slice 24 28 header))) wal_corrupt

-- The first 24 bytes of a record: all that the header's own checksum covers.
record_fields : ℕ → List ℕ → List ℕ
record_fields lsn payload =
    let magic = put_at 0 wal_record_magic (replicate 32 0) in
    let version = put_at 4 (le_bytes 2 wal_format_version) magic in
    let size = put_at 6 (le_bytes 2 wal_record_header_size) version in
    let number = put_at 8 (le_bytes 8 lsn) size in
    let count = put_at 16 (le_bytes 4 (length payload)) number in
    put_at 20 (le_bytes 4 (crc32c payload)) count

unfoldable pub record_header : ℕ → List ℕ → List ℕ
unfolding record_fields
record_header lsn payload =
    let fields = record_fields lsn payload in
    put_at 24 (le_bytes 4 (crc32c (take 24 fields))) fields

-- The buffer of the source has the payload behind the header from the start.
unfoldable pub encode_wal_record : ℕ → List ℕ → List ℕ
encode_wal_record lsn payload = record_header lsn payload ++ payload

pub decode_wal_record_header : List ℕ → ℕ → Result WalRecordMetadata
decode_wal_record_header header expected_lsn = do
  reject (not (length header == wal_record_header_size)) invalid_record_length
  reject (not (bytes_equal (take 4 header) wal_record_magic)) invalid_record_magic
  reject (not (from_le (slice 4 6 header) == wal_format_version)) unsupported_record_version
  reject (not (from_le (slice 6 8 header) == wal_record_header_size)) invalid_record_header_size
  reject (not (from_le (slice 8 16 header) == expected_lsn)) wrong_lsn
  reject
      (from_le (slice 16 20 header) == 0 || ltb max_wal_record_size (from_le (slice 16 20 header)))
      invalid_payload_length
  reject (not (from_le (slice 28 32 header) == 0)) nonzero_reserved
  reject (not (crc32c (take 24 header) == from_le (slice 24 28 header))) header_checksum_mismatch
  ok (record {
    lsn = from_le (slice 8 16 header);
    payload_length = from_le (slice 16 20 header);
    payload_crc = from_le (slice 20 24 header);
  })
