-- ===== src/Examples/Logs.antt =====
-- internal/db/wal.go: a log of two records, and one that a failed write has poisoned.
use zvec.Base.{
  ℕ, ◌+◌, ◌*◌, ◌<◌, ◌^◌, ◌≡◌, ◌≢◌, refl, List, [], ◌∷◌, ◌++◌, true, false, length, take, All, arith,
}
use zvec.Errors.{Result, ok, err, live_ctx, out_of_fuel}
use zvec.Go.Checksum.{crc32c}
use zvec.Wal.Codec.{
  encode_wal_file_header, encode_wal_record, decode_wal_record_header, record_header,
}
use zvec.Wal.Codec.Laws.{decode-record_header}
use zvec.Wal.Scan.{WalRecord, WalRecovery, scan_wal}
use zvec.Wal.Scan.Records.{IsPayload, log_file, log_records}
use zvec.Wal.Scan.Recovery.{scan_wal-log_file, never}
use zvec.Wal.Codec.Canonical.{AreBytes}
use zvec.Wal.Scan.Prefix.{HoldsLog}
use zvec.Wal.Scan.Accounting.{Accounts, scan_wal-Accounts, scan_wal-ne-out_of_fuel}
use zvec.Wal.Handle.{WriteAnswer, check_append, write_record, append, replay, open_wal}
use zvec.Wal.Handle.Invariant.{IsLog, IsTorn-clean}
use zvec.Wal.Handle.Append.{append-IsLog, logged, open_wal-IsLog, reopened}
use zvec.Wal.Handle.Replay.{replay-IsLog, apply_all, always_live}

abbrev two_payloads : List (List ℕ)
two_payloads = (1 ∷ 2 ∷ []) ∷ (3 ∷ []) ∷ []

abbrev third : List ℕ
third = 7 ∷ 8 ∷ 9 ∷ []

two_fit : All IsPayload two_payloads
two_fit = ((omega arith, omega arith), ((omega arith, omega arith), tt))

third_fits : IsPayload third
third_fits = (omega arith, omega arith)

two_log : IsLog (reopened 0 two_payloads 0) two_payloads
unfolding reopened log_file log_records encode_wal_file_header encode_wal_record record_header
two_log = record {
  sized = refl;
  numbered = refl;
  int64 = omega arith;
  fitting = two_fit;
  torn = IsTorn-clean two_payloads third third_fits;
  clean = λ e. refl;
}

-- A write that fails after five bytes of the record.
abbrev cut_write : WriteAnswer
cut_write = record { written = 5; write_ok = false; sync_ok = true }

abbrev good_write : WriteAnswer
good_write = record { written = 0; write_ok = true; sync_ok = true }

room : (reopened 0 two_payloads 0).size + 32 + length third < 2 ^ 63
unfolding reopened log_file log_records encode_wal_file_header encode_wal_record record_header
room = omega arith

append-IsLog_example :
    IsLog
      (append cut_write live_ctx third (reopened 0 two_payloads 0)).0
      (logged (append cut_write live_ctx third (reopened 0 two_payloads 0)).1 third two_payloads)
append-IsLog_example =
    append-IsLog cut_write live_ctx third (reopened 0 two_payloads 0) two_payloads two_log room
      (omega arith)

accepted : (append good_write live_ctx third (reopened 0 two_payloads 0)).1 ≡ ok 3
unfolding append check_append write_record reopened
accepted = refl

cut_short : 20 < length (encode_wal_record 3 third)
unfolding encode_wal_record record_header
cut_short = omega arith

abbrev cut_recovery : WalRecovery
cut_recovery = record {
  records = 2;
  last_lsn = 2;
  valid_bytes = length (log_file two_payloads);
  truncated_bytes = 20;
}

cut_scan :
    scan_wal never (log_file two_payloads ++ take 20 (encode_wal_record 3 third)) ≡ ok cut_recovery
cut_scan = scan_wal-log_file two_payloads third 20 two_fit third_fits (omega arith) cut_short

unpoisoned : (reopened 0 two_payloads 0).poisoned ≡ false
unfolding reopened
unpoisoned = refl

opened : (reopened 0 two_payloads 0).closed ≡ false
unfolding reopened
opened = refl

open_wal-IsLog_example :
    (open_wal never false 4 (reopened 0 two_payloads 0).file
      ≡ ok (reopened 4 two_payloads two_log.torn.cut))
    × IsLog (reopened 4 two_payloads two_log.torn.cut) two_payloads
open_wal-IsLog_example = open_wal-IsLog 4 (reopened 0 two_payloads 0) two_payloads two_log

scan_wal-log_file_example :
    scan_wal never (log_file two_payloads ++ take 20 (encode_wal_record 3 third))
    ≡ ok (record {
      records = 2;
      last_lsn = 2;
      valid_bytes = length (log_file two_payloads);
      truncated_bytes = 20;
    })
scan_wal-log_file_example =
    scan_wal-log_file two_payloads third 20 two_fit third_fits (omega arith) cut_short

cut_AreBytes : AreBytes (log_file two_payloads ++ take 20 (encode_wal_record 3 third))
unfolding log_file log_records encode_wal_file_header encode_wal_record record_header
cut_AreBytes = ground arith

scan_wal-Accounts_example :
    Accounts (length (log_file two_payloads ++ take 20 (encode_wal_record 3 third))) cut_recovery
    × HoldsLog (log_file two_payloads ++ take 20 (encode_wal_record 3 third)) cut_recovery
scan_wal-Accounts_example =
    scan_wal-Accounts never (log_file two_payloads ++ take 20 (encode_wal_record 3 third))
      cut_recovery cut_AreBytes cut_scan

scan_wal-ne-out_of_fuel_example : scan_wal never (log_file two_payloads) ≢ err out_of_fuel
scan_wal-ne-out_of_fuel_example = scan_wal-ne-out_of_fuel never (log_file two_payloads)

-- Adds up the first bytes of the records, each times its number.
abbrev weigh : WalRecord → ℕ → Result ℕ
weigh found total = ok (total * 10 + length found.payload * found.lsn)

replay-IsLog_example :
    replay always_live weigh (reopened 0 two_payloads 0) 5 ≡ apply_all weigh 1 two_payloads 5
replay-IsLog_example =
    replay-IsLog weigh (reopened 0 two_payloads 0) two_payloads 5 two_log unpoisoned opened

decode-record_header_example :
    decode_wal_record_header (record_header 3 third) 3
    ≡ ok (record { lsn = 3; payload_length = 3; payload_crc = crc32c third })
decode-record_header_example =
    decode-record_header 3 third (omega arith) (omega arith) (omega arith)
