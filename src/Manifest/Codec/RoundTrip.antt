-- ===== src/Manifest/Codec/RoundTrip.antt =====
-- internal/db/manifest.go: encoding and decoding a manifest.
use zvec.Base.{
  ℕ, ◌+◌, ◌≤◌, ◌<◌, ◌^◌, ◌≡◌, refl, List, ◌++◌, true, some, inl, inr, length, take, drop, slice,
  from_le, from_le-le_bytes, bytes_equal, bytes_equal_refl, arith, Option-cases,
}
use zvec.Errors.{ok}
use zvec.Go.Checksum.{crc32c, crc32c-lt}
use zvec.Manifest.{Manifest, Json, validate, manifest_texts}
use zvec.Manifest.Codec.{
  manifest_header, manifest_magic, marshal_manifest, unmarshal_manifest, or_error, or_corrupt,
  max_manifest_size,
}

module _ (generation : ℕ) (payload : List ℕ) where
  abbrev pub file : List ℕ
  file = manifest_header generation payload ++ payload

  pub file_size : length file ≡ 32 + length payload
  unfolding manifest_header
  file_size = omega arith

  file_constants :
      (bytes_equal (take 8 file) manifest_magic ≡ true)
      × (from_le (slice 8 10 file) ≡ 1)
      × (from_le (slice 10 12 file) ≡ 32)
      × (drop 32 file ≡ payload)
  unfolding manifest_header from_le
  file_constants = (bytes_equal_refl manifest_magic, refl, refl, refl)

  file_words :
      generation < 256 ^ 8
      → length payload < 256 ^ 8
      → (from_le (slice 12 20 file) ≡ generation)
        × (from_le (slice 20 28 file) ≡ length payload)
        × (from_le (slice 28 32 file) ≡ crc32c payload)
  unfolding manifest_header
  file_words hg hp = (
    from_le-le_bytes 8 generation hg,
    from_le-le_bytes 8 (length payload) hp,
    from_le-le_bytes 4 (crc32c payload) (crc32c-lt payload),
  )

abbrev pub compacted : Json → Manifest → Manifest
compacted json m = record m { schema = json.compact m.schema }

validate-compacted :
    (json : Json) (m : Manifest) → validate json (compacted json m) ≡ validate json m
unfolding validate
validate-compacted json m = rw (json.compact_object m.schema) refl

-- What a successful `MarshalManifest` has done.
pub marshal_inv :
    (json : Json) (m : Manifest) (encoded : List ℕ)
    → marshal_manifest json m ≡ ok encoded
    → (payload : List ℕ) × (json.marshal m ≡ some payload)
      × (validate json m ≡ ok tt)
      × (length payload ≤ max_manifest_size)
      × (encoded ≡ manifest_header m.generation payload ++ payload)
unfolding marshal_manifest or_error
marshal_inv json m encoded h = elim (Option-cases (json.marshal m)) [
  | inl e ↦ absurd (ground arith)
  | inr (payload, e) ↦ (payload, e, ground arith, ground arith, ground arith)
]

-- A manifest whose generation is a word of 64 bits and whose strings are valid UTF-8, when it is
-- encoded, decodes to itself, but that JSON has compacted its schema. JSON is assumed to decode what
-- it encoded in this sense.
pub unmarshal-marshal_manifest :
    (json : Json) (m : Manifest) (encoded : List ℕ)
    → manifest_texts m ≡ true
    → m.generation < 2 ^ 64
    → marshal_manifest json m ≡ ok encoded
    → unmarshal_manifest json encoded ≡ ok (compacted json m)
unfolding unmarshal_manifest or_corrupt
unmarshal-marshal_manifest json m encoded texts word h =
    let (payload, e, v, bound, now) = marshal_inv json m encoded h in
    let decoded = json.unmarshal_marshal m payload texts e in
    let valid = validate-compacted json m in
    rw now (
      ground (
        arith,
        file_size m.generation payload,
        file_constants m.generation payload,
        file_words m.generation payload (omega arith) (omega arith),
      ))
