-- ===== src/Manifest/Codec.antt =====
-- internal/db/manifest.go: MarshalManifest and UnmarshalManifest, the file of a manifest.
pub mod RoundTrip
use zvec.Base.{
  ℕ, ◌+◌, ◌-◌, List, [], ◌∷◌, ◌++◌, ◌||◌, not, Option, none, some, length, take, drop, slice,
  put_at, replicate, le_bytes, from_le, bytes_equal, ltb, ◌==◌,
}
use zvec.Errors.{
  Result, ok, err, ◌>>=◌, ◌>>◌, reject, manifest_corrupt, manifest_encoding,
  unsupported_format_version,
}
use zvec.Go.Checksum.{crc32c}
use zvec.Manifest.{Manifest, Json, validate, disk_format_version}

abbrev manifest_header_size : ℕ
manifest_header_size = 32

-- 64 << 20
abbrev pub max_manifest_size : ℕ
max_manifest_size = 67108864

abbrev pub manifest_magic : List ℕ
manifest_magic = b'Z' ∷ b'V' ∷ b'E' ∷ b'C' ∷ b'M' ∷ b'A' ∷ b'N' ∷ 0 ∷ []

unfoldable pub manifest_header : ℕ → List ℕ → List ℕ
manifest_header generation payload =
    let start = put_at 0 manifest_magic (replicate 32 0) in
    let version = put_at 8 (le_bytes 2 disk_format_version) start in
    let size = put_at 10 (le_bytes 2 manifest_header_size) version in
    let numbered = put_at 12 (le_bytes 8 generation) size in
    let measured = put_at 20 (le_bytes 8 (length payload)) numbered in
    put_at 28 (le_bytes 4 (crc32c payload)) measured

unfoldable pub or_error : Option (List ℕ) → Result (List ℕ)
or_error none = err manifest_encoding
or_error (some payload) = ok payload

unfoldable pub marshal_manifest : Json → Manifest → Result (List ℕ)
unfolding validate or_error
marshal_manifest json m = do
  validate json m
  payload ← or_error (json.marshal m)
  reject (ltb max_manifest_size (length payload)) manifest_corrupt
  ok (manifest_header m.generation payload ++ payload)

unfoldable pub or_corrupt : Option Manifest → Result Manifest
or_corrupt none = err manifest_corrupt
or_corrupt (some m) = ok m

unfoldable pub unmarshal_manifest : Json → List ℕ → Result Manifest
unfolding validate or_corrupt
unmarshal_manifest json encoded = do
  reject (ltb (length encoded) manifest_header_size) manifest_corrupt
  reject (not (bytes_equal (take 8 encoded) manifest_magic)) manifest_corrupt
  reject (not (from_le (slice 8 10 encoded) == disk_format_version)) unsupported_format_version
  reject (not (from_le (slice 10 12 encoded) == manifest_header_size)) manifest_corrupt
  let payload_length = from_le (slice 20 28 encoded)
  reject
      (ltb max_manifest_size payload_length
        || ltb (length encoded - manifest_header_size) payload_length)
      manifest_corrupt
  reject (not (length encoded - manifest_header_size == payload_length)) manifest_corrupt
  let payload = drop manifest_header_size encoded
  reject (not (crc32c payload == from_le (slice 28 32 encoded))) manifest_corrupt
  manifest ← or_corrupt (json.unmarshal payload)
  reject (not (manifest.generation == from_le (slice 12 20 encoded))) manifest_corrupt
  validate json manifest
  ok manifest
