-- ===== src/Wal/Handle/Invariant.antt =====
-- The file behind a handle is the log of the payloads appended so far, and after a failed write the
-- first bytes of one more record.
use native.Mathlib.Nat.{add-zero, add_comm}
use zvec.Base.{
  ℕ, zero, suc, ◌+◌, ◌≤◌, ◌<◌, ◌^◌, ◌≡◌, refl, sym, List, [], ◌∷◌, ◌++◌, append_assoc, append-nil,
  Bool, true, false, length, length-append, take, take-all, drop, All, arith,
}
use zvec.Wal.Codec.{encode_wal_record, encode_wal_file_header}
use zvec.Wal.Codec.Laws.{length-encode_wal_record}
use zvec.Wal.Scan.Records.{IsPayload, log_records, log_file}
use zvec.Wal.Handle.{Wal, write_at}

-- The file is the log of `payloads` and the first bytes of one more record.
pub record IsTorn (payloads : List (List ℕ)) (file : List ℕ) : Type 0 where
  pub last : List ℕ
  pub cut : ℕ
  pub last_fits : IsPayload last
  pub cut_short : cut < length (encode_wal_record (length payloads + 1) last)
  pub contents : file ≡ log_file payloads ++ take cut (encode_wal_record (length payloads + 1) last)

pub record Holds (file : List ℕ) (size last_lsn : ℕ) (poisoned : Bool) (payloads : List (List ℕ))
    : Type 0 where
  pub sized : size ≡ length (log_file payloads)
  pub numbered : last_lsn ≡ length payloads
  pub int64 : size < 2 ^ 63
  pub fitting : All IsPayload payloads
  pub torn : IsTorn payloads file
  pub clean : poisoned ≡ false → file ≡ log_file payloads

abbrev pub IsLog : Wal → List (List ℕ) → Type 0
IsLog wal payloads = Holds wal.file wal.size wal.last_lsn wal.poisoned payloads

log_records-snoc :
    (lsn : ℕ) (ps : List (List ℕ)) (p : List ℕ)
    → log_records lsn (ps ++ (p ∷ [])) ≡ log_records lsn ps ++ encode_wal_record (lsn + length ps) p
unfolding log_records
log_records-snoc lsn [] p = rw (add-zero lsn) (append-nil (encode_wal_record lsn p))
log_records-snoc lsn (q ∷ ps) p =
    let shift : lsn + suc (length ps) ≡ lsn + 1 + length ps = omega arith in
    rw (log_records-snoc (lsn + 1) ps p, shift)
      (sym (append_assoc (encode_wal_record lsn q) (log_records (lsn + 1) ps) _))

pub log_file-snoc :
    (ps : List (List ℕ)) (p : List ℕ)
    → log_file (ps ++ (p ∷ [])) ≡ log_file ps ++ encode_wal_record (length ps + 1) p
unfolding log_file
log_file-snoc ps p =
    rw (log_records-snoc 1 ps p, add_comm 1 (length ps))
      (sym (append_assoc encode_wal_file_header (log_records 1 ps) _))

drop-past {ℓ} : {A : Type ℓ} (n : ℕ) (xs : List A) → length xs ≤ n → drop n xs ≡ []
drop-past zero [] h = refl
drop-past zero (x ∷ xs) h = absurd (omega arith)
drop-past (suc n) [] h = refl
drop-past (suc n) (x ∷ xs) h = drop-past n xs (omega arith)

write_at-end :
    (file source : List ℕ) (offset : ℕ)
    → offset ≡ length file
    → write_at file source offset ≡ file ++ source
write_at-end file source offset e = rw (
  take-all offset file (omega arith),
  drop-past (offset + length source) file (omega arith),
  append-nil source,
)

All-snoc {ℓ κ} :
    {A : Type ℓ} (P : A → Type κ) (xs : List A) (x : A) → All P xs → P x → All P (xs ++ (x ∷ []))
All-snoc P [] x h p = (p, tt)
All-snoc P (y ∷ xs) x (hy, h) p = (hy, All-snoc P xs x h p)

-- A log with no byte behind it.
pub IsTorn-clean :
    (payloads : List (List ℕ)) (p : List ℕ) → IsPayload p → IsTorn payloads (log_file payloads)
IsTorn-clean payloads p fits = record {
  last = p;
  cut = 0;
  last_fits = fits;
  cut_short = omega (arith, length-encode_wal_record (length payloads + 1) p);
  contents = sym (append-nil (log_file payloads));
}

module _ (file payload : List ℕ) (size last_lsn : ℕ) (poisoned : Bool)
    (payloads : List (List ℕ)) where
  pub Holds-grow :
      poisoned ≡ false
      → Holds file size last_lsn poisoned payloads
      → IsPayload payload
      → size + length (encode_wal_record (last_lsn + 1) payload) < 2 ^ 63
      → Holds
          (write_at file (encode_wal_record (last_lsn + 1) payload) size)
          (size + length (encode_wal_record (last_lsn + 1) payload))
          (last_lsn + 1)
          poisoned
          (payloads ++ (payload ∷ []))
  Holds-grow healthy h fits room = record {
    sized = rw (grown, length-append (log_file payloads) _, ← h.sized, h.numbered) refl;
    numbered = rw (length-append payloads (payload ∷ [])) (rw h.numbered refl);
    int64 = room;
    fitting = All-snoc IsPayload payloads payload h.fitting fits;
    torn = rw written (IsTorn-clean (payloads ++ (payload ∷ [])) payload fits);
    clean = λ e. written;
  }
    where
      grown :
          log_file (payloads ++ (payload ∷ []))
          ≡ log_file payloads ++ encode_wal_record (last_lsn + 1) payload
      grown = rw h.numbered (log_file-snoc payloads payload)

      written :
          write_at file (encode_wal_record (last_lsn + 1) payload) size
          ≡ log_file (payloads ++ (payload ∷ []))
      written = rw (grown, h.clean healthy) (write_at-end (log_file payloads) _ size h.sized)

  pub Holds-poison :
      (count : ℕ)
      → poisoned ≡ false
      → Holds file size last_lsn poisoned payloads
      → IsPayload payload
      → count < length (encode_wal_record (last_lsn + 1) payload)
      → Holds
          (write_at file (take count (encode_wal_record (last_lsn + 1) payload)) size)
          size
          last_lsn
          true
          payloads
  Holds-poison count healthy h fits short = record {
    sized = h.sized;
    numbered = h.numbered;
    int64 = h.int64;
    fitting = h.fitting;
    torn = record {
      last = payload;
      cut = count;
      last_fits = fits;
      cut_short = rw (← h.numbered) short;
      contents =
          rw (h.clean healthy, ← h.numbered) (write_at-end (log_file payloads) _ size h.sized);
    };
    clean = λ e. cc;
  }
