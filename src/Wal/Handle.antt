-- ===== src/Wal/Handle.antt =====
-- internal/db/wal.go: the handle `WAL`, its append, sync, close and replay. The file is part of the
-- state; what the operating system answers is an argument. Methods on a nil handle are not modelled.
pub mod Invariant
pub mod Append
pub mod Replay
use zvec.Base.{
  ℕ, zero, suc, ◌+◌, ◌-◌, ◌≤◌, List, [], ◌∷◌, ◌++◌, Bool, true, false, ◌&&◌, not, Option, none,
  some, length, take, drop, ltb, leb, ◌==◌, if◌then◌else◌,
}
use zvec.Errors.{
  Error, Result, ok, err, ◌>>=◌, ◌>>◌, reject, wrap, Context, nil_ctx, done_ctx, live_ctx,
  nil_context, check_context, wal_corrupt, wal_closed, wal_read_only, wal_poisoned,
  wal_record_too_large, empty_record, lsn_exhausted, end_of_file, sync_failed, close_failed,
  out_of_fuel,
}
use zvec.Wal.Codec.{
  encode_wal_record, encode_wal_file_header, validate_wal_file_header, max_wal_record_size,
  wal_file_header_size,
}
use zvec.Wal.Scan.{WalRecovery, WalRecord, WalReader, empty_recovery, read_full_at, scan_wal, next}

-- `poisoned` is whether the error of that name is set.
pub record Wal : Type 0 where
  pub file : List ℕ
  pub sync_every : ℕ
  pub recovery : WalRecovery
  pub size : ℕ
  pub last_lsn : ℕ
  pub dirty_records : ℕ
  pub poisoned : Bool
  pub read_only : Bool
  pub closed : Bool

-- Writing bytes at an offset within the file.
abbrev pub write_at : List ℕ → List ℕ → ℕ → List ℕ
write_at file source offset = take offset file ++ (source ++ drop (offset + length source) file)

-- CreateWAL, once the path is free, locked and written: the file holds its header alone.
unfoldable pub create_wal : ℕ → Wal
create_wal sync_every = record {
  file = encode_wal_file_header;
  sync_every = sync_every;
  recovery = empty_recovery;
  size = wal_file_header_size;
  last_lsn = 0;
  dirty_records = 0;
  poisoned = false;
  read_only = false;
  closed = false;
}

-- openWAL, once the file is locked and open, with no failure of truncate or sync: a writer cuts off
-- the tail that the scan leaves, a reader does not.
pub open_wal : (ℕ → Bool) → Bool → ℕ → List ℕ → Result Wal
open_wal done read_only sync_every file = do
  recovery ← scan_wal done file
  let repair = ltb 0 recovery.truncated_bytes && not read_only
  ok (record {
    file = if repair then take recovery.valid_bytes file else file;
    sync_every = sync_every;
    recovery = recovery;
    size = recovery.valid_bytes;
    last_lsn = recovery.last_lsn;
    dirty_records = 0;
    poisoned = false;
    read_only = read_only;
    closed = false;
  })

-- What the operating system does during one append: how many bytes reach the file if the write
-- fails, whether it succeeds, and whether a sync that is due succeeds.
pub record WriteAnswer : Type 0 where
  pub written : ℕ
  pub write_ok : Bool
  pub sync_ok : Bool

-- The tests of `Append` up to its write.
unfoldable pub check_append : Context → List ℕ → Wal → Result (Unit {0})
check_append ctx payload wal = do
  check_context ctx
  reject (length payload == 0) empty_record
  reject (ltb max_wal_record_size (length payload)) wal_record_too_large
  reject wal.closed wal_closed
  reject wal.read_only wal_read_only
  reject wal.poisoned wal_poisoned
  reject (wal.last_lsn == 18446744073709551615) lsn_exhausted

-- `Append` from its write on.
unfoldable pub write_record : WriteAnswer → List ℕ → Wal → Wal × Result ℕ
write_record answer payload wal =
    let lsn = wal.last_lsn + 1 in
    let encoded = encode_wal_record lsn payload in
    let dirty = wal.dirty_records + 1 in
    let grown = record wal {
      file = write_at wal.file encoded wal.size;
      size = wal.size + length encoded;
      last_lsn = lsn;
      dirty_records = dirty;
    } in
    let failed = record wal {
      file = write_at wal.file (take answer.written encoded) wal.size;
      poisoned = true;
    } in
    if not answer.write_ok
    then (failed, err wal_poisoned)
    else if ltb 0 wal.sync_every && leb wal.sync_every dirty
    then (if answer.sync_ok
        then (record grown { dirty_records = 0 }, ok lsn)
        else (grown, err sync_failed))
    else (grown, ok lsn)

-- (*WAL).Append. With a failed sync the source also returns the sequence number, which no caller reads.
unfoldable pub append : WriteAnswer → Context → List ℕ → Wal → Wal × Result ℕ
append answer ctx payload wal = elim (check_append ctx payload wal) [
  | ok _ ↦ write_record answer payload wal
  | err e ↦ (wal, err e)
]

-- (*WAL).Sync
unfoldable pub sync : Bool → Context → Wal → Wal × Result (Unit {0})
sync sync_ok ctx wal =
    let checked = (do
      check_context ctx
      reject wal.closed wal_closed
      reject wal.read_only wal_read_only
      reject wal.poisoned wal_poisoned
      reject (not sync_ok) sync_failed) in
    elim checked [ ok _ ↦ (record wal { dirty_records = 0 }, ok tt) | err e ↦ (wal, err e) ]

-- (*WAL).Close: whether it syncs first. The joined errors of the source are not told apart.
unfoldable pub close : Bool → Bool → Wal → Wal × Result (Unit {0})
close sync_ok close_ok wal =
    let syncs = not wal.read_only && not wal.poisoned && ltb 0 wal.dirty_records in
    if wal.closed then (wal, ok tt) else (
      record wal { closed = true },
      (do
        reject wal.poisoned wal_poisoned
        reject (syncs && not sync_ok) sync_failed
        reject (not close_ok) close_failed),
    )

-- (*WAL).NewReader over the same file.
pub new_reader : Wal → Result WalReader
new_reader wal = do
  reject wal.closed wal_closed
  reject wal.poisoned wal_poisoned
  header ← wrap wal_corrupt (read_full_at wal.file 0 wal_file_header_size)
  validate_wal_file_header header
  ok (record {
    file = wal.file;
    offset = wal_file_header_size;
    limit = wal.size;
    next_lsn = 1;
    closed = false;
  })

-- The loop of `Replay`; `ctx n` is the context as the call for record `n` finds it.
pub replay_loop {ℓ} :
    {S : Type ℓ} → ℕ → (ℕ → Context) → (WalRecord → S → Result S) → WalReader → S → Result S
replay_loop zero ctx apply reader s = err out_of_fuel
replay_loop (suc fuel) ctx apply reader s = elim (next (ctx reader.next_lsn) reader) [
  | err end_of_file ↦ ok s
  | err e ↦ err e
  | ok (found, reader') ↦ apply found s >>= λ s'. replay_loop fuel ctx apply reader' s'
]

unfoldable pub is_nil : Context → Bool
is_nil nil_ctx = true
is_nil done_ctx = false
is_nil live_ctx = false

-- (*WAL).Replay; each record takes a byte at least, so the log's size bounds the rounds.
pub replay {ℓ} : {S : Type ℓ} → (ℕ → Context) → (WalRecord → S → Result S) → Wal → S → Result S
replay ctx apply wal s = do
  reject (is_nil (ctx 1)) nil_context
  reader ← new_reader wal
  replay_loop wal.size ctx apply reader s
