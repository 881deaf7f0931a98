-- ===== src/Wal/Codec/Canonical.antt =====
-- internal/db/wal.go: the bytes of the headers that the validators accept.
use zvec.Base.{
  ℕ, zero, suc, ◌+◌, ◌*◌, ◌%◌, ◌/◌, ◌≤◌, ◌<◌, ◌≡◌, refl, sym, ap, ◌∙◌, List, [], ◌∷◌, ◌++◌, All,
  length, length-take, length-drop, take, take-all, take-append-drop, drop, from_le, le_bytes,
  bytes_equal_iff, arith,
}
use zvec.Errors.{ok}
use zvec.Go.Checksum.{crc32c}
use zvec.Wal.Codec.{
  WalRecordMetadata, record_header, encode_wal_file_header, validate_wal_file_header,
  decode_wal_record_header, max_wal_record_size, wal_magic, wal_record_magic,
}

abbrev pub AreBytes : List ℕ → Type 0
AreBytes bytes = All (λ b. b < 256) bytes

pub AreBytes-take : (n : ℕ) (bytes : List ℕ) → AreBytes bytes → AreBytes (take n bytes)
AreBytes-take zero bytes a = tt
AreBytes-take (suc n) [] a = tt
AreBytes-take (suc n) (b ∷ bytes) (h, a) = (h, AreBytes-take n bytes a)

pub AreBytes-drop : (n : ℕ) (bytes : List ℕ) → AreBytes bytes → AreBytes (drop n bytes)
AreBytes-drop zero bytes a = a
AreBytes-drop (suc n) [] a = tt
AreBytes-drop (suc n) (b ∷ bytes) (h, a) = AreBytes-drop n bytes a

drop-nil : (n : ℕ) → drop {A = ℕ} n [] ≡ []
drop-nil zero = refl
drop-nil (suc n) = refl

pub drop-drop : (n k : ℕ) (bytes : List ℕ) → drop k (drop n bytes) ≡ drop (n + k) bytes
drop-drop zero k bytes = ap (λ i. drop i bytes) (omega arith)
drop-drop (suc n) k [] = drop-nil k ∙ sym (drop-nil (suc n + k))
drop-drop (suc n) k (b ∷ bytes) =
    let grown : suc n + k ≡ suc (n + k) = omega arith in rw grown (drop-drop n k bytes)

-- The next `k` bytes behind the first `n`
cut : (n k : ℕ) (bytes : List ℕ) → drop n bytes ≡ take k (drop n bytes) ++ drop (n + k) bytes
cut n k bytes =
    sym (take-append-drop k (drop n bytes))
    ∙ ap (λ t. take k (drop n bytes) ++ t) (drop-drop n k bytes)

le_bytes-from_le :
    (bytes : List ℕ) → AreBytes bytes → le_bytes (length bytes) (from_le bytes) ≡ bytes
unfolding from_le
le_bytes-from_le [] a = refl
le_bytes-from_le (b ∷ bytes) (h, a) =
    let low : (b + 256 * from_le bytes) % 256 ≡ b = omega arith in
    let high : (b + 256 * from_le bytes) / 256 ≡ from_le bytes = omega arith in
    rw (low, high) (ap (λ t. b ∷ t) (le_bytes-from_le bytes a))

-- A header of 32 bytes
module _ (header : List ℕ) (size : length header ≡ 32) (bytes : AreBytes header) where
  word :
      (lo width value : ℕ)
      → lo + width ≤ 32
      → from_le (take width (drop lo header)) ≡ value
      → take width (drop lo header) ≡ le_bytes width value
  word lo width value room e =
      let field = take width (drop lo header) in
      let long : length field ≡ width =
        omega (arith, length-take width (drop lo header), length-drop lo header) in
      sym (le_bytes-from_le field (AreBytes-take width _ (AreBytes-drop lo header bytes)))
      ∙ ap (λ w. le_bytes w (from_le field)) long
      ∙ ap (le_bytes width) e

  last_word : drop 28 header ≡ take 4 (drop 28 header)
  last_word = sym (take-all 4 (drop 28 header) (omega (arith, length-drop 28 header)))

  -- What the decoder accepts for a payload with the length and the checksum that it reads is the header that
  -- the encoder writes for that payload.
  pub decode-canonical :
      (lsn : ℕ) (metadata : WalRecordMetadata) (payload : List ℕ)
      → decode_wal_record_header header lsn ≡ ok metadata
      → length payload ≡ metadata.payload_length
      → crc32c payload ≡ metadata.payload_crc
      → header ≡ record_header lsn payload
  unfolding decode_wal_record_header record_header
  decode-canonical lsn metadata payload h long sum =
      let magic : take 4 header ≡ wal_record_magic = (bytes_equal_iff _ _).0 (ground arith) in
      let version = word 4 2 1 (omega arith) (ground arith) in
      let width = word 6 2 32 (omega arith) (ground arith) in
      let number = word 8 8 lsn (omega arith) (ground arith) in
      let count = word 16 4 (length payload) (omega arith) (ground arith) in
      let check = word 20 4 (crc32c payload) (omega arith) (ground arith) in
      let zeros = word 28 4 0 (omega arith) (ground arith) in
      let own = word 24 4 (crc32c (take 24 header)) (omega arith) (ground arith) in
      let tail = cut 24 4 header ∙ ap (λ t. take 4 (drop 24 header) ++ t) last_word in
      let front : List ℕ → List ℕ = λ rest.
        wal_record_magic
        ++ (le_bytes 2 1
            ++ (le_bytes 2 32
                ++ (le_bytes 8 lsn
                    ++ (le_bytes 4 (length payload) ++ (le_bytes 4 (crc32c payload) ++ rest))))) in
      let shape : header ≡ front (drop 24 header) =
        cut 0 4 header
        ∙ (ap (λ x. x ++ drop 4 header) magic)
        ∙ ap (λ t. wal_record_magic ++ t)
            (cut 4 2 header
              ∙ ap (λ x. x ++ drop 6 header) version
              ∙ ap (λ t. le_bytes 2 1 ++ t)
                  (cut 6 2 header
                    ∙ ap (λ x. x ++ drop 8 header) width
                    ∙ ap (λ t. le_bytes 2 32 ++ t)
                        (cut 8 8 header
                          ∙ ap (λ x. x ++ drop 16 header) number
                          ∙ ap (λ t. le_bytes 8 lsn ++ t)
                              (cut 16 4 header
                                ∙ ap (λ x. x ++ drop 20 header) count
                                ∙ ap (λ t. le_bytes 4 (length payload) ++ t)
                                    (cut 20 4 header ∙ ap (λ x. x ++ drop 24 header) check))))) in
      let fields : take 24 header ≡ front [] = ap (take 24) shape in
      shape
      ∙ ap front (
          tail
          ∙ ap (λ x. x ++ take 4 (drop 28 header)) (own ∙ ap (λ f. le_bytes 4 (crc32c f)) fields)
          ∙ ap (λ t. le_bytes 4 (crc32c (front [])) ++ t) zeros)

  pub file_header-canonical :
      validate_wal_file_header header ≡ ok tt → header ≡ encode_wal_file_header
  unfolding validate_wal_file_header encode_wal_file_header
  file_header-canonical h =
      let magic : take 8 header ≡ wal_magic = (bytes_equal_iff _ _).0 (ground arith) in
      let version = word 8 2 1 (omega arith) (ground arith) in
      let width = word 10 2 32 (omega arith) (ground arith) in
      let most = word 12 4 4194304 (omega arith) (ground arith) in
      let gap = word 16 8 0 (omega arith) (ground arith) in
      let own = word 24 4 (crc32c (take 24 header)) (omega arith) (ground arith) in
      let zeros = word 28 4 0 (omega arith) (ground arith) in
      let tail = cut 24 4 header ∙ ap (λ t. take 4 (drop 24 header) ++ t) last_word in
      let front : List ℕ → List ℕ = λ rest.
        wal_magic
        ++ (le_bytes 2 1 ++ (le_bytes 2 32 ++ (le_bytes 4 4194304 ++ (le_bytes 8 0 ++ rest)))) in
      let shape : header ≡ front (drop 24 header) =
        cut 0 8 header
        ∙ (ap (λ x. x ++ drop 8 header) magic)
        ∙ ap (λ t. wal_magic ++ t)
            (cut 8 2 header
              ∙ ap (λ x. x ++ drop 10 header) version
              ∙ ap (λ t. le_bytes 2 1 ++ t)
                  (cut 10 2 header
                    ∙ ap (λ x. x ++ drop 12 header) width
                    ∙ ap (λ t. le_bytes 2 32 ++ t)
                        (cut 12 4 header
                          ∙ ap (λ x. x ++ drop 16 header) most
                          ∙ ap (λ t. le_bytes 4 4194304 ++ t)
                              (cut 16 8 header ∙ ap (λ x. x ++ drop 24 header) gap)))) in
      let fields : take 24 header ≡ front [] = ap (take 24) shape in
      shape
      ∙ ap front (
          tail
          ∙ ap (λ x. x ++ take 4 (drop 28 header)) (own ∙ ap (λ f. le_bytes 4 (crc32c f)) fields)
          ∙ ap (λ t. le_bytes 4 (crc32c (front [])) ++ t) zeros)

pub decoded_length :
    (header : List ℕ) (lsn : ℕ) (metadata : WalRecordMetadata)
    → decode_wal_record_header header lsn ≡ ok metadata
    → (0 < metadata.payload_length) × (metadata.payload_length ≤ max_wal_record_size)
unfolding decode_wal_record_header
decoded_length header lsn metadata h = (ground arith, ground arith)
