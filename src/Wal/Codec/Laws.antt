-- ===== src/Wal/Codec/Laws.antt =====
-- internal/db/wal.go: the headers that the encoders write, and the validators.
use zvec.Base.{
  ℕ, ◌+◌, ◌≤◌, ◌<◌, ◌^◌, ◌≡◌, ◌≢◌, refl, true, List, length, length-append, take, slice, from_le,
  from_le-le_bytes, bytes_equal, arith,
}
use zvec.Errors.{ok, err, out_of_fuel}
use zvec.Go.Checksum.{crc32c, crc32c-lt}
use zvec.Wal.Codec.{
  record_fields, record_header, encode_wal_record, encode_wal_file_header, validate_wal_file_header,
  decode_wal_record_header, max_wal_record_size, wal_record_magic,
}

pub length-record_header : (lsn : ℕ) (payload : List ℕ) → length (record_header lsn payload) ≡ 32
unfolding record_header
length-record_header lsn payload = refl

pub length-encode_wal_record :
    (lsn : ℕ) (payload : List ℕ) → length (encode_wal_record lsn payload) ≡ 32 + length payload
unfolding encode_wal_record
length-encode_wal_record lsn payload =
    omega
      (arith, length-append (record_header lsn payload) payload, length-record_header lsn payload)

module _ (lsn : ℕ) (payload : List ℕ) where
  header_lsn : lsn < 256 ^ 8 → from_le (slice 8 16 (record_header lsn payload)) ≡ lsn
  unfolding record_header
  header_lsn h = from_le-le_bytes 8 lsn h

  header_payload_length :
      length payload < 256 ^ 4 → from_le (slice 16 20 (record_header lsn payload)) ≡ length payload
  unfolding record_header
  header_payload_length h = from_le-le_bytes 4 (length payload) h

  header_payload_crc : from_le (slice 20 24 (record_header lsn payload)) ≡ crc32c payload
  unfolding record_header
  header_payload_crc = from_le-le_bytes 4 (crc32c payload) (crc32c-lt payload)

  header_checksum :
      from_le (slice 24 28 (record_header lsn payload))
      ≡ crc32c (take 24 (record_header lsn payload))
  unfolding record_header
  header_checksum = from_le-le_bytes 4 (crc32c (take 24 (record_fields lsn payload))) (crc32c-lt _)

  header_constants :
      (bytes_equal (take 4 (record_header lsn payload)) wal_record_magic ≡ true)
      × (from_le (slice 4 6 (record_header lsn payload)) ≡ 1)
      × (from_le (slice 6 8 (record_header lsn payload)) ≡ 32)
      × (from_le (slice 28 32 (record_header lsn payload)) ≡ 0)
  unfolding record_header from_le bytes_equal
  header_constants = (refl, refl, refl, refl)

  -- The header of a record with a payload of 1 byte to 4 MiB and a 64-bit sequence number decodes to
  -- what was encoded, when that number is expected.
  pub decode-record_header :
      lsn < 2 ^ 64
      → 0 < length payload
      → length payload ≤ max_wal_record_size
      → decode_wal_record_header (record_header lsn payload) lsn
        ≡ ok (record { lsn = lsn; payload_length = length payload; payload_crc = crc32c payload })
  unfolding decode_wal_record_header
  decode-record_header number pos fits = ground (
    arith,
    length-record_header lsn payload,
    header_constants,
    header_lsn (omega arith),
    header_payload_length (omega arith),
    header_payload_crc,
    header_checksum,
  )

pub validate-encode_file_header : validate_wal_file_header encode_wal_file_header ≡ ok tt
unfolding validate_wal_file_header encode_wal_file_header from_le bytes_equal crc32c
validate-encode_file_header = refl

pub file_header_length : length encode_wal_file_header ≡ 32
unfolding encode_wal_file_header
file_header_length = refl

pub validate-ne-fuel : (header : List ℕ) → validate_wal_file_header header ≢ err out_of_fuel
unfolding validate_wal_file_header
validate-ne-fuel header = ground arith
