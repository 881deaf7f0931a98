-- ===== src/Wal/Handle/Append.antt =====
-- `Append` on every branch, and what a later opening of the file finds.
use zvec.Base.{
  ℕ, suc, ◌+◌, ◌<◌, ◌^◌, ◌≡◌, ◌≢◌, refl, ap, ◌∙◌, List, [], ◌∷◌, ◌++◌, true, false, length,
  length-take, append-nil, All, lt→ltb, take, take-append_length, arith, Bool-cases, inl, inr, ltb,
  leb, ◌&&◌, if◌then◌else◌,
}
use zvec.Errors.{Error, Result, Result-cases, ok, err, sync_failed, Context}
use zvec.Wal.Codec.{encode_wal_record}
use zvec.Wal.Codec.Laws.{length-encode_wal_record}
use zvec.Wal.Scan.Records.{IsPayload, log_file}
use zvec.Wal.Scan.Recovery.{scan_wal-log_file, length-log_records, length-log_file, never}
use zvec.Wal.Handle.{Wal, WriteAnswer, write_at, check_append, write_record, append, open_wal}
use zvec.Wal.Handle.Invariant.{Holds, Holds-grow, Holds-poison, IsLog, IsTorn, IsTorn-clean}

-- The payloads in the log after an append with this result: the record is there unless the write
-- itself, or a test before it, failed.
pub logged : Result ℕ → List ℕ → List (List ℕ) → List (List ℕ)
logged (ok lsn) payload payloads = payloads ++ (payload ∷ [])
logged (err sync_failed) payload payloads = payloads ++ (payload ∷ [])
logged (err e) payload payloads = payloads

record Accepted (payload : List ℕ) (wal : Wal) : Type 0 where
  fits : IsPayload payload
  unpoisoned : wal.poisoned ≡ false

check_append_lem :
    (ctx : Context) (payload : List ℕ) (wal : Wal) (u : Unit {0})
    → check_append ctx payload wal ≡ ok u
    → Accepted payload wal
unfolding check_append
check_append_lem ctx payload wal u e = ground arith

write_record-IsLog :
    (answer : WriteAnswer) (payload : List ℕ) (wal : Wal) (payloads : List (List ℕ))
    → IsLog wal payloads
    → Accepted payload wal
    → wal.size + 32 + length payload < 2 ^ 63
    → answer.written < 32 + length payload
    → IsLog
        (write_record answer payload wal).0
        (logged (write_record answer payload wal).1 payload payloads)
unfolding write_record logged
write_record-IsLog answer payload wal payloads h a room short = elim (Bool-cases answer.write_ok) [
  | inr failed ↦ simp failed (
      Holds-poison wal.file payload wal.size wal.last_lsn wal.poisoned payloads answer.written
        a.unpoisoned h a.fits (omega (arith, length-encode_wal_record (wal.last_lsn + 1) payload)))
  | inl written ↦
      elim (Bool-cases (ltb 0 wal.sync_every && leb wal.sync_every (wal.dirty_records + 1))) [
        | inr later ↦ simp (written, later) grown
        | inl due ↦ elim (Bool-cases answer.sync_ok) [
          | inl synced ↦ simp (written, due, synced) grown
          | inr unsynced ↦ simp (written, due, unsynced) grown
        ]
      ]
]
  where
    grown :
        Holds
          (write_at wal.file (encode_wal_record (wal.last_lsn + 1) payload) wal.size)
          (wal.size + length (encode_wal_record (wal.last_lsn + 1) payload))
          (wal.last_lsn + 1)
          wal.poisoned
          (payloads ++ (payload ∷ []))
    grown =
        Holds-grow wal.file payload wal.size wal.last_lsn wal.poisoned payloads a.unpoisoned h
          a.fits (omega (arith, length-encode_wal_record (wal.last_lsn + 1) payload))

logged_other :
    (e : Error) (payload : List ℕ) (payloads : List (List ℕ))
    → e ≢ sync_failed
    → logged (err e) payload payloads ≡ payloads
unfolding logged
logged_other sync_failed payload payloads h = absurd (h refl)
logged_other _ payload payloads h = refl

check_append-ne-sync_failed :
    (ctx : Context) (payload : List ℕ) (wal : Wal) → check_append ctx payload wal ≢ err sync_failed
unfolding check_append
check_append-ne-sync_failed ctx payload wal = ground arith

-- Whatever an append returns, the file is again a log: of one payload more after a success or a failed
-- sync, of the same payloads after every other error, with at most a torn record behind them. It is
-- assumed that the file stays below 2^63 bytes and that a failed write has not written the whole record.
pub append-IsLog :
    (answer : WriteAnswer) (ctx : Context) (payload : List ℕ) (wal : Wal) (payloads : List (List ℕ))
    → IsLog wal payloads
    → wal.size + 32 + length payload < 2 ^ 63
    → answer.written < 32 + length payload
    → IsLog
        (append answer ctx payload wal).0
        (logged (append answer ctx payload wal).1 payload payloads)
unfolding append logged
append-IsLog answer ctx payload wal payloads h room short =
    elim (Result-cases (check_append ctx payload wal)) [
      | inl (u, accepted) ↦
          rw (accepted, append)
            (write_record-IsLog answer payload wal payloads h
              (check_append_lem ctx payload wal u accepted) room short)
      | inr (e, refused) ↦
          rw (refused, append)
            (rw
              (logged_other e payload payloads
                (λ p. check_append-ne-sync_failed ctx payload wal (refused ∙ ap err p)))
              h)
    ]

append_written :
    (answer : WriteAnswer) (ctx : Context) (payload : List ℕ) (wal wal' : Wal) (lsn : ℕ)
    → append answer ctx payload wal ≡ (wal', ok lsn)
    → append (record answer { written = 0 }) ctx payload wal ≡ (wal', ok lsn)
unfolding append write_record
append_written answer ctx payload wal wal' lsn done = ground arith

-- An append that succeeds leaves the log of one payload more.
pub appended-IsLog :
    (answer : WriteAnswer) (ctx : Context) (payload : List ℕ) (wal wal' : Wal)
    (payloads : List (List ℕ)) (lsn : ℕ)
    → IsLog wal payloads
    → wal.size + 32 + length payload < 2 ^ 63
    → append answer ctx payload wal ≡ (wal', ok lsn)
    → IsLog wal' (payloads ++ (payload ∷ []))
unfolding logged
appended-IsLog answer ctx payload wal wal' payloads lsn h room done =
    let again = append_written answer ctx payload wal wal' lsn done in
    rw again at
      (append-IsLog (record answer { written = 0 }) ctx payload wal payloads h room (omega arith))

grown_result :
    (answer : WriteAnswer) (ctx : Context) (payload : List ℕ) (wal wal' : Wal) (r : Result ℕ)
    (payloads : List (List ℕ))
    → append answer ctx payload wal ≡ (wal', r)
    → wal'.last_lsn ≡ wal.last_lsn + 1
    → (append (record answer { written = 0 }) ctx payload wal ≡ (wal', r))
      × (logged r payload payloads ≡ payloads ++ (payload ∷ []))
unfolding append write_record logged check_append
grown_result answer ctx payload wal wal' r payloads done grew = (ground arith, ground arith)

-- An append that takes a number leaves the log of one payload more, also if it fails.
pub grown-IsLog :
    (answer : WriteAnswer) (ctx : Context) (payload : List ℕ) (wal wal' : Wal) (r : Result ℕ)
    (payloads : List (List ℕ))
    → IsLog wal payloads
    → wal.size + 32 + length payload < 2 ^ 63
    → append answer ctx payload wal ≡ (wal', r)
    → wal'.last_lsn ≡ wal.last_lsn + 1
    → IsLog wal' (payloads ++ (payload ∷ []))
grown-IsLog answer ctx payload wal wal' r payloads h room done grew =
    let (again, more) = grown_result answer ctx payload wal wal' r payloads done grew in
    rw more at (
      rw again at (
        append-IsLog (record answer { written = 0 }) ctx payload wal payloads h room (omega arith)))

-- The handle that opening for writing makes from a log, whatever was cut off behind it.
unfoldable pub reopened : ℕ → List (List ℕ) → ℕ → Wal
reopened sync_every payloads cut = record {
  file = log_file payloads;
  sync_every = sync_every;
  recovery = record {
    records = length payloads;
    last_lsn = length payloads;
    valid_bytes = length (log_file payloads);
    truncated_bytes = cut;
  };
  size = length (log_file payloads);
  last_lsn = length payloads;
  dirty_records = 0;
  poisoned = false;
  read_only = false;
  closed = false;
}

repaired :
    (log tail : List ℕ)
    → (if ltb 0 (length tail) && true then take (length log) (log ++ tail) else log ++ tail) ≡ log
repaired log [] = append-nil log
repaired log (b ∷ tail) =
    rw (lt→ltb 0 (suc (length tail)) (omega arith)) (take-append_length log (b ∷ tail))

open_wal-torn :
    (sync_every : ℕ) (payloads : List (List ℕ)) (file : List ℕ) (torn : IsTorn payloads file)
    → length payloads + 1 < 2 ^ 64
    → All IsPayload payloads
    → open_wal never false sync_every file ≡ ok (reopened sync_every payloads torn.cut)
unfolding open_wal reopened
open_wal-torn sync_every payloads file torn number valid =
    rw
      (
        torn.contents,
        scan_wal-log_file payloads torn.last torn.cut valid torn.last_fits number torn.cut_short,
      )
      (ap (λ (f : List ℕ). ok (record (reopened sync_every payloads torn.cut) { file = f }))
        (rw cut_length at (
          repaired (log_file payloads)
            (take torn.cut (encode_wal_record (length payloads + 1) torn.last)))))
  where
    cut_length :
        length (take torn.cut (encode_wal_record (length payloads + 1) torn.last)) ≡ torn.cut
    cut_length = omega (
      arith,
      torn.cut_short,
      length-take torn.cut (encode_wal_record (length payloads + 1) torn.last),
    )

-- Opening the file of any handle on a log for writing, of a poisoned one too, under a context that
-- stays live, succeeds, keeps exactly the payloads of the log and cuts off the torn record: the new
-- handle is unpoisoned and its file is that log.
pub open_wal-IsLog :
    (sync_every : ℕ) (wal : Wal) (payloads : List (List ℕ)) (h : IsLog wal payloads)
    → (open_wal never false sync_every wal.file ≡ ok (reopened sync_every payloads h.torn.cut))
      × IsLog (reopened sync_every payloads h.torn.cut) payloads
unfolding reopened
open_wal-IsLog sync_every wal payloads h = (
  open_wal-torn sync_every payloads wal.file h.torn
      (omega (arith, length-log_records 1 payloads, length-log_file payloads)) h.fitting,
  record {
    sized = refl;
    numbered = refl;
    int64 = omega arith;
    fitting = h.fitting;
    torn = IsTorn-clean payloads h.torn.last h.torn.last_fits;
    clean = λ e. refl;
  },
)

pub reopened-healthy :
    (sync_every : ℕ) (payloads : List (List ℕ)) (cut : ℕ)
    → ((reopened sync_every payloads cut).poisoned ≡ false)
      × ((reopened sync_every payloads cut).closed ≡ false)
unfolding reopened
reopened-healthy sync_every payloads cut = (refl, refl)
