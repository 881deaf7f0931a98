-- ===== src/Snapshot.antt =====
-- internal/db/snapshot.go: the envelope of the delete and primary-key snapshots.
pub mod RoundTrip
use zvec.Base.{
  ℕ, ◌+◌, ◌-◌, List, [], ◌∷◌, ◌++◌, ◌||◌, not, length, take, drop, slice, put_at, replicate,
  le_bytes, from_le, bytes_equal, ltb, ◌==◌,
}
use zvec.Errors.{
  Result, ok, ◌>>=◌, ◌>>◌, reject, snapshot_corrupt, snapshot_too_large, unsupported_format_version,
}
use zvec.Go.Checksum.{crc32c}

abbrev snapshot_codec_version : ℕ
snapshot_codec_version = 1

abbrev snapshot_header_size : ℕ
snapshot_header_size = 40

-- 256 << 20
abbrev pub max_snapshot_payload : ℕ
max_snapshot_payload = 268435456

-- Bytes 0 to 36, all that the header's own checksum covers.
snapshot_fields : List ℕ → ℕ → List ℕ → List ℕ
snapshot_fields magic count payload =
    let start = put_at 0 magic (replicate 40 0) in
    let version = put_at 8 (le_bytes 2 snapshot_codec_version) start in
    let size = put_at 10 (le_bytes 2 snapshot_header_size) version in
    let counted = put_at 16 (le_bytes 8 count) size in
    let measured = put_at 24 (le_bytes 8 (length payload)) counted in
    put_at 32 (le_bytes 4 (crc32c payload)) measured

pub snapshot_header : List ℕ → ℕ → List ℕ → List ℕ
unfolding snapshot_fields
snapshot_header magic count payload =
    let fields = snapshot_fields magic count payload in
    put_at 36 (le_bytes 4 (crc32c (take 36 fields))) fields

pub encode_snapshot : List ℕ → ℕ → List ℕ → Result (List ℕ)
encode_snapshot magic count payload = do
  reject (ltb max_snapshot_payload (length payload)) snapshot_too_large
  ok (snapshot_header magic count payload ++ payload)

-- The count and the payload.
pub decode_snapshot : List ℕ → List ℕ → Result (ℕ × List ℕ)
decode_snapshot encoded magic = do
  reject (ltb (length encoded) snapshot_header_size) snapshot_corrupt
  reject (not (bytes_equal (take 8 encoded) magic)) snapshot_corrupt
  reject (not (from_le (slice 8 10 encoded) == snapshot_codec_version)) unsupported_format_version
  reject (not (from_le (slice 10 12 encoded) == snapshot_header_size)) snapshot_corrupt
  reject (not (from_le (slice 12 16 encoded) == 0)) snapshot_corrupt
  reject (not (crc32c (take 36 encoded) == from_le (slice 36 40 encoded))) snapshot_corrupt
  let payload_length = from_le (slice 24 32 encoded)
  reject
      (ltb max_snapshot_payload payload_length
        || not (payload_length == length encoded - snapshot_header_size))
      snapshot_corrupt
  let payload = drop snapshot_header_size encoded
  reject (not (crc32c payload == from_le (slice 32 36 encoded))) snapshot_corrupt
  ok (from_le (slice 16 24 encoded), payload)
