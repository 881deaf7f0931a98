-- ===== src/Wal/Scan/Records.antt =====
-- A log as the writer leaves it, and one round of the scan and of the reader over it.
use native.Mathlib.Nat.{suc-sub-suc, sub-zero}
use zvec.Base.{
  ℕ, zero, suc, ◌+◌, ◌-◌, ◌≤◌, ◌<◌, ◌^◌, ◌≡◌, refl, sym, ap, List, [], ◌∷◌, ◌++◌, append_assoc,
  length, length-append, length-take, take, take-append_length, drop-append_length, arith,
  Bool-cases, ltb, inl, inr,
}
use zvec.Errors.{ok}
use zvec.Wal.Codec.{encode_wal_record, encode_wal_file_header, record_header, max_wal_record_size}
use zvec.Wal.Codec.Laws.{length-record_header, length-encode_wal_record, decode-record_header}
use zvec.Wal.Scan.{read_full_at, scan_record, torn, whole, read_wal_record_at}

-- What `Append` accepts.
abbrev pub IsPayload : List ℕ → Type 0
IsPayload payload = (0 < length payload) × (length payload ≤ max_wal_record_size)

-- The records of `payloads`, numbered from `lsn` on.
unfoldable pub log_records : ℕ → List (List ℕ) → List ℕ
log_records lsn [] = []
log_records lsn (p ∷ ps) = encode_wal_record lsn p ++ log_records (lsn + 1) ps

unfoldable pub log_file : List (List ℕ) → List ℕ
log_file payloads = encode_wal_file_header ++ log_records 1 payloads

pub read_full_at-append :
    (front middle back : List ℕ) (offset count : ℕ)
    → offset ≡ length front
    → count ≡ length middle
    → read_full_at (front ++ (middle ++ back)) offset count ≡ ok middle
unfolding read_full_at
read_full_at-append front middle back offset count at size =
    rw (at, size, drop-append_length front (middle ++ back), take-append_length middle back)
      (ground arith)

take-append_past {ℓ} :
    {A : Type ℓ} (front back : List A) (k m : ℕ)
    → m ≡ length front
    → m ≤ k
    → take k (front ++ back) ≡ front ++ take (k - m) back
take-append_past [] back k m e h = rw (e, sub-zero) refl
take-append_past (x ∷ front) back zero m e h = absurd (omega arith)
take-append_past (x ∷ front) back (suc k) zero e h = absurd (omega arith)
take-append_past (x ∷ front) back (suc k) (suc m) e h =
    rw suc-sub-suc (ap (λ t. x ∷ t) (take-append_past front back k m (omega arith) (omega arith)))

-- Reads inside a record that has `front` before it and `back` behind it.
module _ (front : List ℕ) (lsn : ℕ) (payload back : List ℕ) where
  pub length-around :
      length (front ++ (encode_wal_record lsn payload ++ back))
      ≡ length front + (32 + length payload + length back)
  length-around = omega (
    arith,
    length-append front (encode_wal_record lsn payload ++ back),
    length-append (encode_wal_record lsn payload) back,
    length-encode_wal_record lsn payload,
  )

  read-header :
      read_full_at (front ++ (encode_wal_record lsn payload ++ back)) (length front) 32
      ≡ ok (record_header lsn payload)
  unfolding encode_wal_record
  read-header = rw (append_assoc (record_header lsn payload) payload back) (
      read_full_at-append front (record_header lsn payload) (payload ++ back) (length front) 32 refl
        (sym (length-record_header lsn payload)))

  read-payload :
      read_full_at
        (front ++ (encode_wal_record lsn payload ++ back))
        (length front + 32)
        (length payload)
      ≡ ok payload
  unfolding encode_wal_record
  read-payload =
      rw
        (
          append_assoc (record_header lsn payload) payload back,
          ← append_assoc front (record_header lsn payload) (payload ++ back),
        )
        (read_full_at-append (front ++ record_header lsn payload) payload back (length front + 32)
          (length payload)
          (omega (
            arith,
            length-append front (record_header lsn payload),
            length-record_header lsn payload,
          ))
          refl)

  -- The scan takes a whole record in one round.
  pub scan_record-whole :
      lsn < 2 ^ 64
      → IsPayload payload
      → scan_record (front ++ (encode_wal_record lsn payload ++ back)) (length front) lsn
        ≡ ok (whole (32 + length payload))
  unfolding scan_record
  scan_record-whole number (pos, fits) = ground (
    arith,
    length-around,
    read-header,
    read-payload,
    decode-record_header lsn payload number pos fits,
  )

  -- The reader returns a whole record that ends before its limit.
  pub read_wal_record_at-whole :
      (limit : ℕ)
      → length front + 32 + length payload ≤ limit
      → lsn < 2 ^ 64
      → IsPayload payload
      → read_wal_record_at
          (front ++ (encode_wal_record lsn payload ++ back))
          (length front)
          limit
          lsn
        ≡ ok (record { lsn = lsn; payload = payload }, 32 + length payload)
  unfolding read_wal_record_at
  read_wal_record_at-whole limit room number (pos, fits) =
      ground (arith, read-header, read-payload, decode-record_header lsn payload number pos fits)

read_header-cut :
    (front : List ℕ) (lsn : ℕ) (payload : List ℕ) (k : ℕ)
    → 32 ≤ k
    → read_full_at (front ++ take k (encode_wal_record lsn payload)) (length front) 32
      ≡ ok (record_header lsn payload)
unfolding encode_wal_record
read_header-cut front lsn payload k h =
    rw
      (take-append_past (record_header lsn payload) payload k 32
        (sym (length-record_header lsn payload)) h)
      (read_full_at-append front (record_header lsn payload) (take (k - 32) payload) (length front)
        32 refl (sym (length-record_header lsn payload)))

-- Where a record was cut off by a crash, the scan stops and reports the bytes that are left.
pub scan_record-torn :
    (front : List ℕ) (lsn : ℕ) (payload : List ℕ) (k : ℕ)
    → lsn < 2 ^ 64
    → IsPayload payload
    → k < length (encode_wal_record lsn payload)
    → scan_record (front ++ take k (encode_wal_record lsn payload)) (length front) lsn ≡ ok (torn k)
unfolding scan_record
scan_record-torn front lsn payload k number (pos, fits) short = elim (Bool-cases (ltb k 32)) [
  | inl early ↦ ground (arith, size)
  | inr late ↦ ground (
    arith,
    size,
    read_header-cut front lsn payload k,
    decode-record_header lsn payload number pos fits,
    length-encode_wal_record lsn payload,
  )
]
  where
    size : length (front ++ take k (encode_wal_record lsn payload)) ≡ length front + k
    size = omega (
      arith,
      length-append front (take k (encode_wal_record lsn payload)),
      length-take k (encode_wal_record lsn payload),
    )
