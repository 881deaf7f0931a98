-- ===== src/Wal/Handle/Replay.antt =====
-- internal/db/wal.go: the calls that `Replay` makes.
use zvec.Base.{
  ℕ, zero, suc, ◌+◌, ◌<◌, ◌^◌, ◌≡◌, refl, sym, ◌∙◌, List, [], ◌∷◌, ◌++◌, append_assoc, append-nil,
  false, length, length-append, All, arith,
}
use zvec.Errors.{Result, ok, err, ◌>>=◌, Context, live_ctx, end_of_file}
use zvec.Wal.Codec.{encode_wal_record, encode_wal_file_header}
use zvec.Wal.Codec.Laws.{length-encode_wal_record, file_header_length, validate-encode_file_header}
use zvec.Wal.Scan.{WalRecord, WalReader, next, read_full_at}
use zvec.Wal.Scan.Records.{
  IsPayload, log_records, log_file, read_wal_record_at-whole, read_full_at-append,
}
use zvec.Wal.Scan.Recovery.{length-log_records, length-log_file}
use zvec.Wal.Handle.{Wal, new_reader, replay_loop, replay, is_nil}
use zvec.Wal.Handle.Invariant.{IsLog}

-- The function applied to each payload in turn, up to its first error.
unfoldable pub apply_all {ℓ} :
    {S : Type ℓ} → (WalRecord → S → Result S) → ℕ → List (List ℕ) → S → Result S
apply_all apply lsn [] s = ok s
apply_all apply lsn (p ∷ ps) s =
    apply (record { lsn = lsn; payload = p }) s >>= λ s'. apply_all apply (lsn + 1) ps s'

abbrev pub always_live : ℕ → Context
always_live n = live_ctx

-- A reader that has the records of `payloads` before it.
record Reads (reader : WalReader) (lsn : ℕ) (front : List ℕ) (payloads : List (List ℕ))
    : Type 0 where
  tail : List ℕ
  contents : reader.file ≡ front ++ (log_records lsn payloads ++ tail)
  at : reader.offset ≡ length front
  ends : reader.limit ≡ length front + length (log_records lsn payloads)
  numbered : reader.next_lsn ≡ lsn
  opened : reader.closed ≡ false

next-record :
    (reader : WalReader) (lsn : ℕ) (front p : List ℕ) (ps : List (List ℕ))
    → Reads reader lsn front (p ∷ ps)
    → lsn < 2 ^ 64
    → IsPayload p
    → (next live_ctx reader
        ≡ ok (
          record { lsn = lsn; payload = p },
          record reader {
            offset = reader.offset + (32 + length p);
            next_lsn = reader.next_lsn + 1;
          },
        ))
      × Reads
          (record reader {
            offset = reader.offset + (32 + length p);
            next_lsn = reader.next_lsn + 1;
          })
          (lsn + 1)
          (front ++ encode_wal_record lsn p)
          ps
unfolding next log_records
next-record reader lsn front p ps r number fits = (
  ground (
    arith,
    split,
    size,
    read_wal_record_at-whole front lsn p (log_records (lsn + 1) ps ++ r.tail) reader.limit
        (omega (arith, size)) number fits,
  ),
  record {
    tail = r.tail;
    contents = split ∙ sym (append_assoc front (encode_wal_record lsn p) _);
    at = omega (arith, size);
    ends = omega (arith, size);
    numbered = omega arith;
    opened = r.opened;
  },
)
  where
    split : reader.file ≡ front ++ (encode_wal_record lsn p ++ (log_records (lsn + 1) ps ++ r.tail))
    split =
        rw (r.contents, append_assoc (encode_wal_record lsn p) (log_records (lsn + 1) ps) r.tail)
          refl

    size :
        (length (encode_wal_record lsn p ++ log_records (lsn + 1) ps)
          ≡ 32 + length p + length (log_records (lsn + 1) ps))
        × (length (front ++ encode_wal_record lsn p) ≡ length front + (32 + length p))
    size = omega (
      arith,
      length-append (encode_wal_record lsn p) (log_records (lsn + 1) ps),
      length-append front (encode_wal_record lsn p),
      length-encode_wal_record lsn p,
    )

next_end :
    (reader : WalReader) (lsn : ℕ) (front : List ℕ)
    → Reads reader lsn front []
    → next live_ctx reader ≡ err end_of_file
unfolding next log_records
next_end reader lsn front r = ground (arith, r.at, r.ends)

replay_loop-Reads {ℓ} :
    {S : Type ℓ} (apply : WalRecord → S → Result S) (ps : List (List ℕ)) (fuel lsn : ℕ)
    (reader : WalReader) (front : List ℕ) (s : S)
    → Reads reader lsn front ps
    → length ps < fuel
    → lsn + length ps < 2 ^ 64
    → All IsPayload ps
    → replay_loop fuel always_live apply reader s ≡ apply_all apply lsn ps s
unfolding replay_loop apply_all
replay_loop-Reads apply ps zero lsn reader front s r f n h = absurd (omega arith)
replay_loop-Reads apply [] (suc fuel) lsn reader front s r f n h =
    rw (next_end reader lsn front r, replay_loop) refl
replay_loop-Reads {S} apply (p ∷ ps) (suc fuel) lsn reader front s r f n (hp, hps) =
    let (read, following) = next-record reader lsn front p ps r (omega arith) hp in
    rw (read, replay_loop)
      (go (apply (record { lsn = lsn; payload = p }) s) (λ s'.
        replay_loop-Reads apply ps fuel (lsn + 1) after (front ++ encode_wal_record lsn p) s'
          following (omega arith) (omega arith) hps))
  where
    after : WalReader
    after = record reader {
      offset = reader.offset + (32 + length p);
      next_lsn = reader.next_lsn + 1;
    }

    go :
        (result : Result S)
        → ((s' : S) → replay_loop fuel always_live apply after s' ≡ apply_all apply (lsn + 1) ps s')
        → (result >>= λ s'. replay_loop fuel always_live apply after s')
          ≡ (result >>= λ s'. apply_all apply (lsn + 1) ps s')
    go (err e) rest = refl
    go (ok s') rest = rest s'

-- Replaying an open, unpoisoned log under a context that stays live applies the function to every
-- payload that was appended, in the order of the appends and numbered from 1, and stops at the first
-- error; it ends by the end of file.
pub replay-IsLog {ℓ} :
    {S : Type ℓ} (apply : WalRecord → S → Result S) (wal : Wal) (payloads : List (List ℕ)) (s : S)
    → IsLog wal payloads
    → wal.poisoned ≡ false
    → wal.closed ≡ false
    → replay always_live apply wal s ≡ apply_all apply 1 payloads s
unfolding replay new_reader is_nil
replay-IsLog apply wal payloads s h healthy opened =
    rw (healthy, opened, h.clean healthy, header, validate-encode_file_header)
      (replay_loop-Reads apply payloads wal.size 1 _ encode_wal_file_header s
        (record {
          tail = [];
          contents = rw append-nil (unfold log_file in refl);
          at = sym file_header_length;
          ends = omega (arith, length-log_file payloads, file_header_length);
          numbered = refl;
          opened = refl;
        })
        (omega (arith, length-log_records 1 payloads, length-log_file payloads))
        (omega (arith, length-log_records 1 payloads, length-log_file payloads)) h.fitting)
  where
    header : read_full_at (log_file payloads) 0 32 ≡ ok encode_wal_file_header
    header =
        unfold log_file in
        read_full_at-append [] encode_wal_file_header (log_records 1 payloads) 0 32 refl
          (sym file_header_length)
