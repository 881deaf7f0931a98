-- ===== src/Wal/Scan/Prefix.antt =====
-- internal/db/wal.go: the bytes in front of the place that a scan has reached, on any file at all.
use zvec.Base.{
  ℕ, zero, suc, ◌+◌, ◌≡◌, refl, sym, ap, ◌∙◌, List, [], ◌∷◌, ◌++◌, Bool, All, length, length-append,
  take, drop, ltb, Bool-cases, arith, inl, inr,
}
use zvec.Errors.{ok, Result-cases}
use zvec.Go.Checksum.{crc32c}
use zvec.Wal.Codec.{
  record_header, decode_wal_record_header, encode_wal_record, encode_wal_file_header,
}
use zvec.Wal.Codec.Laws.{length-encode_wal_record}
use zvec.Wal.Codec.Canonical.{
  AreBytes, AreBytes-take, AreBytes-drop, drop-drop, decoded_length, decode-canonical,
  file_header-canonical,
}
use zvec.Wal.Scan.{
  read_full_at, scan_record, scan_loop, scan_wal, torn, whole, WalRecovery, empty_recovery,
}
use zvec.Wal.Scan.Records.{IsPayload, log_records, log_file}

take-nil : (n : ℕ) → take {A = ℕ} n [] ≡ []
take-nil zero = refl
take-nil (suc n) = refl

take-split : (n k : ℕ) (bytes : List ℕ) → take (n + k) bytes ≡ take n bytes ++ take k (drop n bytes)
take-split zero k bytes = ap (λ i. take i bytes) (omega arith)
take-split (suc n) k [] = take-nil (suc n + k) ∙ sym (take-nil k)
take-split (suc n) k (b ∷ bytes) =
    let grown : suc n + k ≡ suc (n + k) = omega arith in
    rw grown (ap (λ t. b ∷ t) (take-split n k bytes))

read_full_at_got :
    (file : List ℕ) (offset count : ℕ) (got : List ℕ)
    → read_full_at file offset count ≡ ok got
    → (got ≡ take count (drop offset file)) × (length got ≡ count)
unfolding read_full_at
read_full_at_got file offset count got h = (ground arith, ground arith)

-- The record at `offset` is what the writer writes for one payload.
record Written (file : List ℕ) (offset lsn size : ℕ) : Type 0 where
  payload : List ℕ
  fits : IsPayload payload
  sized : size ≡ 32 + length payload
  bytes : take size (drop offset file) ≡ encode_wal_record lsn payload

whole-Written :
    (file : List ℕ) (offset lsn size : ℕ)
    → AreBytes file
    → scan_record file offset lsn ≡ ok (whole size)
    → Written file offset lsn size
unfolding scan_record encode_wal_record
whole-Written file offset lsn size a h = elim (Result-cases (read_full_at file offset 32)) [
  | inr (e, f) ↦ absurd (ground arith)
  | inl (header, f) ↦ elim (Result-cases (decode_wal_record_header header lsn)) [
    | inr (e, g) ↦ absurd (ground arith)
    | inl (metadata, g) ↦
        elim (Result-cases (read_full_at file (offset + 32) metadata.payload_length)) [
          | inr (e, i) ↦ absurd (ground arith)
          | inl (payload, i) ↦
              let (front, long) = read_full_at_got file offset 32 header f in
              let (back, counted) =
                read_full_at_got file (offset + 32) metadata.payload_length payload i in
              let (pos, most) = decoded_length header lsn metadata g in
              let sum : crc32c payload ≡ metadata.payload_crc = ground arith in
              let sized : size ≡ 32 + length payload = ground arith in
              let header_bytes : AreBytes header =
                rw front (AreBytes-take 32 (drop offset file) (AreBytes-drop offset file a)) in
              let canonical =
                decode-canonical header long header_bytes lsn metadata payload g counted sum in
              let behind : payload ≡ take (length payload) (drop 32 (drop offset file)) =
                back
                ∙ ap (λ k. take k (drop (offset + 32) file)) (sym counted)
                ∙ ap (take (length payload)) (sym (drop-drop offset 32 file)) in
              record {
                payload = payload;
                fits = (omega arith, omega arith);
                sized = sized;
                bytes =
                    ap (λ k. take k (drop offset file)) sized
                    ∙ take-split 32 (length payload) (drop offset file)
                    ∙ ap (λ x. x ++ take (length payload) (drop 32 (drop offset file)))
                        (sym front ∙ canonical)
                    ∙ ap (λ x. record_header lsn payload ++ x) (sym behind);
              }
        ]
  ]
]

-- The bytes from `offset` to `valid` are the records of payloads, numbered from `lsn` on.
record HoldsRecords (file : List ℕ) (offset lsn before : ℕ) (found : WalRecovery) : Type 0 where
  payloads : List (List ℕ)
  fit : All IsPayload payloads
  counted : found.records ≡ before + length payloads
  reached : found.valid_bytes ≡ offset + length (log_records lsn payloads)
  bytes : take (length (log_records lsn payloads)) (drop offset file) ≡ log_records lsn payloads

no_records :
    (file : List ℕ) (offset lsn before : ℕ) (found : WalRecovery)
    → found.records ≡ before
    → found.valid_bytes ≡ offset
    → HoldsRecords file offset lsn before found
unfolding log_records
no_records file offset lsn before found r v = record {
  payloads = [];
  fit = tt;
  counted = omega arith;
  reached = omega arith;
  bytes = refl;
}

one_more :
    (file : List ℕ) (offset lsn before size : ℕ) (found : WalRecovery)
    → Written file offset lsn size
    → HoldsRecords file (offset + size) (lsn + 1) (before + 1) found
    → HoldsRecords file offset lsn before found
unfolding log_records
one_more file offset lsn before size found w rest =
    let tail = log_records (lsn + 1) rest.payloads in
    let long : length (encode_wal_record lsn w.payload ++ tail) ≡ size + length tail = omega (
      arith,
      length-append (encode_wal_record lsn w.payload) tail,
      length-encode_wal_record lsn w.payload,
      w.sized,
    ) in
    record {
      payloads = w.payload ∷ rest.payloads;
      fit = (w.fits, rest.fit);
      counted = omega (arith, rest.counted);
      reached = omega (arith, rest.reached, long);
      bytes =
          ap (λ k. take k (drop offset file)) long
          ∙ take-split size (length tail) (drop offset file)
          ∙ ap (λ x. x ++ take (length tail) (drop size (drop offset file))) w.bytes
          ∙ ap (λ x. encode_wal_record lsn w.payload ++ x)
              (ap (take (length tail)) (drop-drop offset size file) ∙ rest.bytes);
    }

scan_loop-HoldsRecords :
    (fuel : ℕ) (done : ℕ → Bool) (file : List ℕ) (offset lsn : ℕ) (recovery found : WalRecovery)
    → AreBytes file
    → recovery.valid_bytes ≡ offset
    → scan_loop fuel done file offset lsn recovery ≡ ok found
    → HoldsRecords file offset lsn recovery.records found
unfolding scan_loop
scan_loop-HoldsRecords zero done file offset lsn recovery found a v e = cc
scan_loop-HoldsRecords (suc fuel) done file offset lsn recovery found a v e =
    elim (Bool-cases (ltb offset (length file))) [
      | inr ended ↦
          let same : found ≡ recovery = ground arith in
          no_records file offset lsn recovery.records found (ground arith) (ground arith)
      | inl more ↦ elim (Result-cases (scan_record file offset lsn)) [
        | inr (fault, bad) ↦ absurd (ground (arith, bad))
        | inl (torn remaining, seen) ↦
            no_records file offset lsn recovery.records found (ground (arith, seen))
              (ground (arith, seen))
        | inl (whole size, seen) ↦
            one_more file offset lsn recovery.records size found
              (whole-Written file offset lsn size a seen)
              (scan_loop-HoldsRecords fuel done file (offset + size) (lsn + 1)
                (record recovery {
                  records = recovery.records + 1;
                  last_lsn = lsn;
                  valid_bytes = offset + size;
                })
                found a refl (ground (arith, seen)))
      ]
    ]

-- The first bytes of a file are the log of payloads that `Append` accepts.
pub record HoldsLog (file : List ℕ) (found : WalRecovery) : Type 0 where
  pub payloads : List (List ℕ)
  pub fit : All IsPayload payloads
  pub counted : found.records ≡ length payloads
  pub prefix : take found.valid_bytes file ≡ log_file payloads

with_header :
    (file : List ℕ) (found : WalRecovery)
    → take 32 file ≡ encode_wal_file_header
    → HoldsRecords file 32 1 0 found
    → HoldsLog file found
unfolding log_file
with_header file found front h = record {
  payloads = h.payloads;
  fit = h.fit;
  counted = omega (arith, h.counted);
  prefix =
      ap (λ k. take k file) h.reached
      ∙ take-split 32 (length (log_records 1 h.payloads)) file
      ∙ ap (λ x. x ++ take (length (log_records 1 h.payloads)) (drop 32 file)) front
      ∙ ap (λ x. encode_wal_file_header ++ x) h.bytes;
}

pub scan_wal-HoldsLog :
    (done : ℕ → Bool) (file : List ℕ) (found : WalRecovery)
    → AreBytes file
    → scan_wal done file ≡ ok found
    → HoldsLog file found
unfolding scan_wal
scan_wal-HoldsLog done file found a e = elim (Result-cases (read_full_at file 0 32)) [
  | inr (x, f) ↦ absurd (ground arith)
  | inl (header, f) ↦
      let (front, long) = read_full_at_got file 0 32 header f in
      let bytes : AreBytes header = rw front (AreBytes-take 32 file a) in
      let known : header ≡ encode_wal_file_header =
        file_header-canonical header long bytes (ground arith) in
      with_header file found (sym front ∙ known) (
        scan_loop-HoldsRecords (length file) done file 32 1 empty_recovery found a refl
          (ground arith))
]
