-- ===== src/Wal/Scan.antt =====
-- internal/db/wal.go: the scan that opens a log, and the reader that replays it. A file is its bytes.
-- A sequence number cannot wrap here: each takes 33 bytes of a file whose size is an int64.
pub mod Records
pub mod Recovery
pub mod Prefix
pub mod Accounting
use zvec.Base.{
  ℕ, zero, suc, ◌+◌, ◌-◌, List, [], ◌∷◌, Bool, Option, none, some, not, length, take, drop, ltb,
  ◌==◌, if◌then◌else◌,
}
use zvec.Errors.{
  Result, ok, err, ◌>>=◌, ◌>>◌, reject, wrap, cancelled, wal_corrupt, wal_closed, end_of_file,
  out_of_fuel, Context, check_context,
}
use zvec.Go.Checksum.{crc32c}
use zvec.Wal.Codec.{
  WalRecordMetadata, validate_wal_file_header, decode_wal_record_header, wal_file_header_size,
  wal_record_header_size,
}

-- ailego.ReadFullAt on a regular file: all the bytes asked for, or an error.
pub read_full_at : List ℕ → ℕ → ℕ → Result (List ℕ)
read_full_at file offset count =
    let got = take count (drop offset file) in
    if length got == count then ok got else err end_of_file

pub record WalRecovery : Type 0 where
  pub records : ℕ
  pub last_lsn : ℕ
  pub valid_bytes : ℕ
  pub truncated_bytes : ℕ

pub record WalRecord : Type 0 where
  pub lsn : ℕ
  pub payload : List ℕ

-- One round of the scan: the file ends inside the record, or the record takes so many bytes.
pub data ScanStep : Type 0 where
  torn whole : ℕ → ScanStep

-- The body of the loop, from `remaining := size - offset` on.
pub scan_record : List ℕ → ℕ → ℕ → Result ScanStep
scan_record file offset expected_lsn =
    let remaining = length file - offset in
    if ltb remaining wal_record_header_size then ok (torn remaining) else do
      header ← wrap wal_corrupt (read_full_at file offset wal_record_header_size)
      metadata ← wrap wal_corrupt (decode_wal_record_header header expected_lsn)
      let record_size = wal_record_header_size + metadata.payload_length
      if ltb remaining record_size then ok (torn remaining) else do
        payload ←
            wrap wal_corrupt
              (read_full_at file (offset + wal_record_header_size) metadata.payload_length)
        reject (not (crc32c payload == metadata.payload_crc)) wal_corrupt
        ok (whole record_size)

-- `done n` tells whether the context is done when record `n` is about to be read.
pub scan_loop : ℕ → (ℕ → Bool) → List ℕ → ℕ → ℕ → WalRecovery → Result WalRecovery
scan_loop zero done file offset expected_lsn recovery = err out_of_fuel
scan_loop (suc fuel) done file offset expected_lsn recovery =
    let round : Result WalRecovery = (do
      reject (done expected_lsn) cancelled
      step ← scan_record file offset expected_lsn
      elim step [
        | torn remaining ↦ ok (record recovery { truncated_bytes = remaining })
        | whole record_size ↦
            scan_loop fuel done file (offset + record_size) (expected_lsn + 1) (record recovery {
              records = recovery.records + 1;
              last_lsn = expected_lsn;
              valid_bytes = offset + record_size;
            })
      ]) in
    if ltb offset (length file) then round else ok recovery

abbrev pub empty_recovery : WalRecovery
empty_recovery = record {
  records = 0;
  last_lsn = 0;
  valid_bytes = wal_file_header_size;
  truncated_bytes = 0;
}

-- Each round but the last takes a byte at least, so the file's length bounds the rounds.
pub scan_wal : (ℕ → Bool) → List ℕ → Result WalRecovery
scan_wal done file = do
  reject (ltb (length file) wal_file_header_size) wal_corrupt
  header ← wrap wal_corrupt (read_full_at file 0 wal_file_header_size)
  validate_wal_file_header header
  scan_loop (length file) done file wal_file_header_size 1 empty_recovery

-- The record and its size on disk.
pub read_wal_record_at : List ℕ → ℕ → ℕ → ℕ → Result (WalRecord × ℕ)
read_wal_record_at file offset limit expected_lsn =
    let remaining = limit - offset in
    do
      reject (ltb remaining wal_record_header_size) wal_corrupt
      header ← wrap wal_corrupt (read_full_at file offset wal_record_header_size)
      metadata ← wrap wal_corrupt (decode_wal_record_header header expected_lsn)
      let record_size = wal_record_header_size + metadata.payload_length
      reject (ltb remaining record_size) wal_corrupt
      payload ←
          wrap wal_corrupt
            (read_full_at file (offset + wal_record_header_size) metadata.payload_length)
      reject (not (crc32c payload == metadata.payload_crc)) wal_corrupt
      ok (record { lsn = metadata.lsn; payload = payload }, record_size)

pub record WalReader : Type 0 where
  pub file : List ℕ
  pub offset : ℕ
  pub limit : ℕ
  pub next_lsn : ℕ
  pub closed : Bool

-- (*WALReader).Next; a failed call leaves the reader as it was.
unfoldable pub next : Context → WalReader → Result (WalRecord × WalReader)
next ctx reader = do
  check_context ctx
  reject reader.closed wal_closed
  reject (reader.offset == reader.limit) end_of_file
  (found, size) ← read_wal_record_at reader.file reader.offset reader.limit reader.next_lsn
  ok (found, record reader { offset = reader.offset + size; next_lsn = reader.next_lsn + 1 })
