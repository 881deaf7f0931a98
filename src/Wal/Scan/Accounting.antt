-- ===== src/Wal/Scan/Accounting.antt =====
-- internal/db/wal.go: the scan on any file at all.
use zvec.Base.{
  ℕ, zero, suc, ◌+◌, ◌*◌, ◌-◌, ◌≤◌, ◌<◌, ◌≡◌, ◌≢◌, List, Bool, length, take, arith, inl, inr,
}
use zvec.Errors.{Result-cases, ok, err, out_of_fuel}
use zvec.Wal.Codec.Laws.{validate-ne-fuel}
use zvec.Wal.Codec.Canonical.{AreBytes}
use zvec.Wal.Scan.Prefix.{HoldsLog, scan_wal-HoldsLog}
use zvec.Wal.Scan.{
  scan_loop, scan_wal, read_full_at, scan_record, torn, whole, WalRecovery, empty_recovery,
  ScanStep,
}

abbrev StepFits : List ℕ → ℕ → ScanStep → Type 0
StepFits file offset (torn remaining) = remaining ≡ length file - offset
StepFits file offset (whole size) = (32 ≤ size) × (offset + size ≤ length file)

scan_record_fits :
    (file : List ℕ) (offset lsn : ℕ) (step : ScanStep)
    → offset ≤ length file
    → scan_record file offset lsn ≡ ok step
    → StepFits file offset step
unfolding scan_record
scan_record_fits file offset lsn (torn remaining) h e = ground arith
scan_record_fits file offset lsn (whole size) h e = ground arith

scan_record-ne-fuel :
    (file : List ℕ) (offset lsn : ℕ) → scan_record file offset lsn ≢ err out_of_fuel
unfolding scan_record
scan_record-ne-fuel file offset lsn = ground arith

-- What the loop keeps: `recovery` describes the records before `offset`.
record Describes (recovery : WalRecovery) (offset lsn : ℕ) : Type 0 where
  valid : recovery.valid_bytes ≡ offset
  nothing_cut : recovery.truncated_bytes ≡ 0
  last : recovery.last_lsn ≡ recovery.records
  following : lsn ≡ recovery.records + 1

-- `recovery` tells a file of `size` bytes apart into whole records and a tail.
pub record Accounts (size : ℕ) (recovery : WalRecovery) : Type 0 where
  pub every_byte : recovery.valid_bytes + recovery.truncated_bytes ≡ size
  pub header_kept : 32 ≤ recovery.valid_bytes
  pub numbered : recovery.last_lsn ≡ recovery.records
  pub dense : 32 * recovery.records + 32 ≤ recovery.valid_bytes

scan_loop-Accounts :
    (fuel : ℕ) (done : ℕ → Bool) (file : List ℕ) (offset lsn : ℕ) (recovery found : WalRecovery)
    → offset ≤ length file
    → Describes recovery offset lsn
    → 32 * recovery.records + 32 ≤ offset
    → scan_loop fuel done file offset lsn recovery ≡ ok found
    → Accounts (length file) found
unfolding scan_loop
scan_loop-Accounts zero done file offset lsn recovery found h d n e = cc
scan_loop-Accounts (suc fuel) done file offset lsn recovery found h d n e =
    elim (Result-cases (scan_record file offset lsn)) [
      | inr (fault, bad) ↦ ground (arith, bad)
      | inl (torn remaining, seen) ↦
          ground (arith, seen, scan_record_fits file offset lsn (torn remaining))
      | inl (whole size, seen) ↦ ground (
        arith,
        seen,
        scan_record_fits file offset lsn (whole size),
        scan_loop-Accounts fuel done file (offset + size) (lsn + 1)
            (record recovery {
              records = recovery.records + 1;
              last_lsn = lsn;
              valid_bytes = offset + size;
            })
            found,
      )
    ]

scan_counts :
    (done : ℕ → Bool) (file : List ℕ) (found : WalRecovery)
    → scan_wal done file ≡ ok found
    → Accounts (length file) found
unfolding scan_wal
scan_counts done file found e =
    ground (arith, scan_loop-Accounts (length file) done file 32 1 empty_recovery found)

-- Whatever bytes a file holds, a scan that accepts it has split them into a prefix and the tail to
-- truncate. The prefix is, byte for byte, the log that the writer leaves for some payloads that it
-- accepts, numbered from 1, and `records` counts them.
pub scan_wal-Accounts :
    (done : ℕ → Bool) (file : List ℕ) (found : WalRecovery)
    → AreBytes file
    → scan_wal done file ≡ ok found
    → Accounts (length file) found × HoldsLog file found
scan_wal-Accounts done file found a e =
    (scan_counts done file found e, scan_wal-HoldsLog done file found a e)

scan_loop-ne-fuel :
    (fuel : ℕ) (done : ℕ → Bool) (file : List ℕ) (offset lsn : ℕ) (recovery : WalRecovery)
    → offset ≤ length file
    → length file - offset < fuel
    → scan_loop fuel done file offset lsn recovery ≢ err out_of_fuel
unfolding scan_loop
scan_loop-ne-fuel zero done file offset lsn recovery h f = absurd (omega arith)
scan_loop-ne-fuel (suc fuel) done file offset lsn recovery h f =
    elim (Result-cases (scan_record file offset lsn)) [
      | inr (fault, bad) ↦ ground (arith, bad, scan_record-ne-fuel file offset lsn)
      | inl (torn remaining, seen) ↦ ground (arith, seen)
      | inl (whole size, seen) ↦ ground (
        arith,
        seen,
        scan_record_fits file offset lsn (whole size),
        scan_loop-ne-fuel fuel done file (offset + size) (lsn + 1) (record recovery {
          records = recovery.records + 1;
          last_lsn = lsn;
          valid_bytes = offset + size;
        }),
      )
    ]

-- The scan ends on every file: as many rounds as the file has bytes are enough.
pub scan_wal-ne-out_of_fuel :
    (done : ℕ → Bool) (file : List ℕ) → scan_wal done file ≢ err out_of_fuel
unfolding scan_wal read_full_at
scan_wal-ne-out_of_fuel done file = ground (
  arith,
  scan_loop-ne-fuel (length file) done file 32 1 empty_recovery,
  validate-ne-fuel (take 32 file),
)
