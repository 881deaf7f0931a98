-- ===== src/Engine/Reopen.antt =====
-- Opening the log again after a crash: internal/db/collection.go calls `OpenWAL` and `replayWriteWAL`.
use zvec.Base.{ℕ, ◌≡◌, List, false}
use zvec.Errors.{ok, live_ctx}
use zvec.Wal.Scan.Recovery.{never}
use zvec.Wal.Handle.{Wal, open_wal, replay}
use zvec.Wal.Handle.Append.{open_wal-IsLog, reopened, reopened-healthy}
use zvec.Wal.Handle.Replay.{replay-IsLog, always_live}
use zvec.Manager.{SegmentManager}
use zvec.Engine.Run.{Engine}
use zvec.Engine.Recover.{recover_record}
use zvec.Engine.Durability.{Recoverable}
use zvec.Engine.Sequences.{IsSound, Writes, Writes-Recoverable}

Recoverable-reopen :
    (sync_every : ℕ) (base : SegmentManager) (e : Engine) (payloads : List (List ℕ))
    → Recoverable base e payloads
    → (wal : Wal) × (open_wal never false sync_every e.wal.file ≡ ok wal)
      × (replay always_live (recover_record live_ctx) wal base ≡ ok e.manager)
Recoverable-reopen sync_every base e payloads h =
    let (opens, log) = open_wal-IsLog sync_every e.wal payloads h.log in
    let wal = reopened sync_every payloads h.log.torn.cut in
    let (unpoisoned, unclosed) = reopened-healthy sync_every payloads h.log.torn.cut in
    (
      wal,
      opens,
      rw (replay-IsLog (recover_record live_ctx) wal payloads base log unpoisoned unclosed)
          h.rebuilt,
    )

-- After any number of acknowledged inserts, upserts, updates and deletes, each with room for its record
-- in a file below 2^63 bytes, the file of the log opens for writing, and replaying it on the base gives
-- the manager as the last write left it. It is assumed that before the first write the log replays on
-- the base to the manager, no two keys have one location, and all identifiers are words.
pub Writes-reopen :
    (sync_every : ℕ) {base : SegmentManager} {e e' : Engine} {payloads : List (List ℕ)}
    → Recoverable base e payloads
    → IsSound e.manager
    → Writes e e'
    → (wal : Wal) × (open_wal never false sync_every e'.wal.file ≡ ok wal)
      × (replay always_live (recover_record live_ctx) wal base ≡ ok e'.manager)
Writes-reopen sync_every {base = base} {e' = e'} h sound writes =
    let (payloads', recoverable, sound') = Writes-Recoverable h sound writes in
    Recoverable-reopen sync_every base e' payloads' recoverable
