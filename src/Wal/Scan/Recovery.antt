-- ===== src/Wal/Scan/Recovery.antt =====
-- What opening a log finds, and what replaying it returns, when the file is a log that the writer left,
-- cut off anywhere inside its last record.
use native.Mathlib.Nat.{add-zero, add_comm}
use zvec.Base.{
  ℕ, zero, suc, ◌+◌, ◌≤◌, ◌<◌, ◌^◌, ◌≡◌, refl, sym, ◌∙◌, List, [], ◌∷◌, ◌++◌, append_assoc, Bool,
  false, length, length-append, length-take, take, All, arith,
}
use zvec.Errors.{ok}
use zvec.Wal.Codec.{encode_wal_record, encode_wal_file_header}
use zvec.Wal.Codec.Laws.{length-encode_wal_record, validate-encode_file_header, file_header_length}
use zvec.Wal.Scan.{
  scan_loop, scan_wal, scan_record, torn, WalRecovery, empty_recovery, read_full_at,
}
use zvec.Wal.Scan.Records.{
  IsPayload, log_records, log_file, scan_record-whole, length-around, scan_record-torn,
  read_full_at-append,
}

pub length-log_records :
    (lsn : ℕ) (payloads : List (List ℕ)) → length payloads ≤ length (log_records lsn payloads)
unfolding log_records
length-log_records lsn [] = omega arith
length-log_records lsn (p ∷ ps) = omega (
  arith,
  length-append (encode_wal_record lsn p) (log_records (lsn + 1) ps),
  length-encode_wal_record lsn p,
  length-log_records (lsn + 1) ps,
)

abbrev pub never : ℕ → Bool
never n = false

-- What the scan does at the end of the whole records: it stops, or reports a torn record.
abbrev EndsTorn : ℕ → List ℕ → Type 0
EndsTorn lsn tail =
    (front : List ℕ) → scan_record (front ++ tail) (length front) lsn ≡ ok (torn (length tail))

scan_loop-log :
    (payloads : List (List ℕ)) (fuel offset lsn : ℕ) (file front tail : List ℕ)
    (recovery : WalRecovery)
    → file ≡ front ++ (log_records lsn payloads ++ tail)
    → offset ≡ length front
    → length payloads < fuel
    → recovery.last_lsn + 1 ≡ lsn
    → recovery.truncated_bytes ≡ 0
    → recovery.valid_bytes ≡ offset
    → lsn + length payloads < 2 ^ 64
    → All IsPayload payloads
    → EndsTorn (lsn + length payloads) tail
    → scan_loop fuel never file offset lsn recovery
      ≡ ok (record {
        records = recovery.records + length payloads;
        last_lsn = recovery.last_lsn + length payloads;
        valid_bytes = offset + length (log_records lsn payloads);
        truncated_bytes = length tail;
      })
unfolding scan_loop log_records
scan_loop-log payloads zero offset lsn file front tail recovery fe oe f e t v n h ends =
    absurd (omega arith)
scan_loop-log [] (suc fuel) offset lsn file front tail recovery fe oe f e t v n h ends =
    ground (arith, ends front, length-append front tail, add-zero lsn)
scan_loop-log (p ∷ ps) (suc fuel) offset lsn file front tail recovery fe oe f e t v n (hp, hps)
      ends =
    ground (
      arith,
      scan_record-whole front lsn p (log_records (lsn + 1) ps ++ tail) (omega arith) hp,
      file_eq,
      length-encode_wal_record lsn p,
      length-append (encode_wal_record lsn p) (log_records (lsn + 1) ps),
      length-around front lsn p (log_records (lsn + 1) ps ++ tail),
      scan_loop-log ps fuel (offset + (32 + length p)) (lsn + 1) file
          (front ++ encode_wal_record lsn p) tail
          (record {
            records = recovery.records + 1;
            last_lsn = lsn;
            valid_bytes = offset + (32 + length p);
            truncated_bytes = recovery.truncated_bytes;
          })
          (file_eq ∙ sym (append_assoc front (encode_wal_record lsn p) _))
          (omega
            (arith, length-append front (encode_wal_record lsn p), length-encode_wal_record lsn p))
          (omega arith) refl t refl (omega arith) hps (λ pre. rw (← suc_shift) (ends pre)),
    )
  where
    suc_shift : lsn + suc (length ps) ≡ lsn + 1 + length ps
    suc_shift = omega arith

    file_eq : file ≡ front ++ (encode_wal_record lsn p ++ (log_records (lsn + 1) ps ++ tail))
    file_eq =
        rw fe (rw (append_assoc (encode_wal_record lsn p) (log_records (lsn + 1) ps) tail) refl)

ends-torn :
    (lsn : ℕ) (last : List ℕ) (k : ℕ)
    → lsn < 2 ^ 64
    → IsPayload last
    → k < length (encode_wal_record lsn last)
    → EndsTorn lsn (take k (encode_wal_record lsn last))
ends-torn lsn last k number hl short front =
    rw (cut_length) (scan_record-torn front lsn last k number hl short)
  where
    cut_length : length (take k (encode_wal_record lsn last)) ≡ k
    cut_length = omega (arith, length-take k (encode_wal_record lsn last))

pub length-log_file :
    (payloads : List (List ℕ)) → length (log_file payloads) ≡ 32 + length (log_records 1 payloads)
unfolding log_file
length-log_file payloads =
    omega (arith, length-append encode_wal_file_header (log_records 1 payloads), file_header_length)

-- Scanning, under a context that stays live, a log of fewer than 2^64 - 1 payloads that `Append`
-- accepts, whose last append was cut off anywhere by a crash or a failed write, finds exactly the
-- records appended before it, and reports the bytes of the cut record as the tail to truncate. A log
-- that was not cut is the case of no byte of it.
pub scan_wal-log_file :
    (payloads : List (List ℕ)) (last : List ℕ) (k : ℕ)
    → All IsPayload payloads
    → IsPayload last
    → length payloads + 1 < 2 ^ 64
    → k < length (encode_wal_record (length payloads + 1) last)
    → scan_wal never (log_file payloads ++ take k (encode_wal_record (length payloads + 1) last))
      ≡ ok (record {
        records = length payloads;
        last_lsn = length payloads;
        valid_bytes = length (log_file payloads);
        truncated_bytes = k;
      })
unfolding scan_wal
scan_wal-log_file payloads last k hps hl number short = ground (
  arith,
  length-append (log_file payloads) tail,
  length-log_file payloads,
  length-take k (encode_wal_record (length payloads + 1) last),
  length-log_records 1 payloads,
  header,
  validate-encode_file_header,
  scan_loop-log payloads (length (log_file payloads ++ tail)) 32 1 (log_file payloads ++ tail)
      encode_wal_file_header tail empty_recovery split (sym file_header_length)
      (omega (
        arith,
        length-append (log_file payloads) tail,
        length-log_file payloads,
        length-log_records 1 payloads,
      ))
      refl refl refl (omega arith) hps
      (rw (add_comm 1 (length payloads)) (ends-torn (length payloads + 1) last k number hl short)),
)
  where
    tail : List ℕ
    tail = take k (encode_wal_record (length payloads + 1) last)

    split : log_file payloads ++ tail ≡ encode_wal_file_header ++ (log_records 1 payloads ++ tail)
    split = unfold log_file in append_assoc encode_wal_file_header (log_records 1 payloads) tail

    header : read_full_at (log_file payloads ++ tail) 0 32 ≡ ok encode_wal_file_header
    header = rw split (
        read_full_at-append [] encode_wal_file_header (log_records 1 payloads ++ tail) 0 32 refl
          (sym file_header_length))
