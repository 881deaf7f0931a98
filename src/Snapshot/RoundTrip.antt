-- ===== src/Snapshot/RoundTrip.antt =====
-- internal/db/snapshot.go: encoding and decoding a snapshot.
use zvec.Base.{
  ℕ, ◌+◌, ◌≤◌, ◌<◌, ◌^◌, ◌≡◌, refl, List, [], ◌∷◌, ◌++◌, true, length, take, drop, slice, from_le,
  from_le-le_bytes, bytes_equal, bytes_equal_refl, arith,
}
use zvec.Errors.{ok}
use zvec.Go.Checksum.{crc32c, crc32c-lt}
use zvec.Snapshot.{
  snapshot_fields, snapshot_header, encode_snapshot, decode_snapshot, max_snapshot_payload,
}

module _ (b0 b1 b2 b3 b4 b5 b6 b7 count : ℕ) (payload : List ℕ) where
  abbrev magic : List ℕ
  magic = b0 ∷ b1 ∷ b2 ∷ b3 ∷ b4 ∷ b5 ∷ b6 ∷ b7 ∷ []

  abbrev encoded : List ℕ
  encoded = snapshot_header magic count payload ++ payload

  header_size : length encoded ≡ 40 + length payload
  unfolding snapshot_header
  header_size = omega arith

  header_constants :
      (bytes_equal (take 8 encoded) magic ≡ true)
      × (from_le (slice 8 10 encoded) ≡ 1)
      × (from_le (slice 10 12 encoded) ≡ 40)
      × (from_le (slice 12 16 encoded) ≡ 0)
      × (drop 40 encoded ≡ payload)
  unfolding snapshot_header from_le
  header_constants = (bytes_equal_refl magic, refl, refl, refl, refl)

  header_words :
      count < 256 ^ 8
      → length payload < 256 ^ 8
      → (from_le (slice 16 24 encoded) ≡ count)
        × (from_le (slice 24 32 encoded) ≡ length payload)
        × (from_le (slice 32 36 encoded) ≡ crc32c payload)
        × (from_le (slice 36 40 encoded) ≡ crc32c (take 36 encoded))
  unfolding snapshot_header
  header_words hc hp = (
    from_le-le_bytes 8 count hc,
    from_le-le_bytes 8 (length payload) hp,
    from_le-le_bytes 4 (crc32c payload) (crc32c-lt payload),
    from_le-le_bytes 4 (crc32c (take 36 (snapshot_fields magic count payload))) (crc32c-lt _),
  )

  -- Under any magic of eight bytes, a count of 64 bits and a payload of at most 256 MiB are encoded,
  -- and decoding under the same magic returns both.
  pub decode-encode_snapshot :
      count < 2 ^ 64
      → length payload ≤ max_snapshot_payload
      → (encode_snapshot magic count payload ≡ ok encoded)
        × (decode_snapshot encoded magic ≡ ok (count, payload))
  unfolding encode_snapshot decode_snapshot
  decode-encode_snapshot hc hp = (
    ground arith,
    ground (arith, header_size, header_constants, header_words (omega arith) (omega arith)),
  )
