-- ===== src/Engine/Batch.antt =====
-- internal/db/write_engine.go: batches of writes.
use zvec.Base.{
  ℕ, zero, suc, ◌+◌, ◌≤◌, ◌<◌, ◌≡◌, refl, List, [], ◌∷◌, ◌++◌, map, Bool, true, false, length, take,
  drop, arith,
}
use native.Mathlib.Nat.{add-zero, zero-add}
use zvec.Errors.{ok, Context, done_ctx, live_ctx}
use zvec.Engine.Run.{Engine, Mutation}
use zvec.Engine.{
  WriteResult, result_of, cancelled_result, run_batch, batch, is_done, is_nil, is_empty,
}

-- The writes of `inputs`, numbered from `index`, all of them: the engine and the results.
pub write_each :
    {I : Type 0}
    → (I → List ℕ)
    → (ℕ → I → Mutation ℕ)
    → ℕ
    → List I
    → Engine
    → Engine × List WriteResult
write_each key_of one index [] e = (e, [])
write_each key_of one index (input ∷ inputs) e =
    let rest = write_each key_of one (suc index) inputs (one index input e).0 in
    (rest.0, result_of (key_of input) (one index input e).1 ∷ rest.1)

module _ {I : Type 0} (key_of : I → List ℕ) (one : ℕ → I → Mutation ℕ) (done : ℕ → Bool) where
  run_batch-StopsAt :
      (inputs : List I) (index n : ℕ) (e : Engine)
      → n ≤ length inputs
      → ((k : ℕ) → k < n → done (index + k) ≡ false)
      → (n < length inputs → done (index + n) ≡ true)
      → run_batch key_of one done index inputs e ≡ (
        (write_each key_of one index (take n inputs) e).0,
        (write_each key_of one index (take n inputs) e).1
            ++ map (λ i. cancelled_result (key_of i)) (drop n inputs),
      )
  unfolding run_batch write_each
  run_batch-StopsAt [] index zero e within live stopped = refl
  run_batch-StopsAt [] index (suc n) e within live stopped = absurd (omega arith)
  run_batch-StopsAt (input ∷ inputs) index zero e within live stopped =
      rw (rw (add-zero index) at (stopped (omega arith))) refl
  run_batch-StopsAt (input ∷ inputs) index (suc n) e within live stopped =
      rw
        (
          rw (add-zero index) at (live 0 (omega arith)),
          run_batch-StopsAt inputs (suc index) n (one index input e).0 (omega arith)
              (λ k h. rw (shift k) at (live (suc k) (omega arith)))
              (λ h. rw (shift n) at (stopped (omega arith))),
        )
        refl
    where
      shift : (k : ℕ) → index + suc k ≡ suc index + k
      shift k = omega arith

-- A batch that is not empty, whose context is live at its first `n` polls and done at the next, if there
-- is one, writes its first `n` inputs in order, each on the engine that the one before left, and
-- returns one result for each input in their order: that of its write, or for an input behind the
-- first `n` the context's error.
pub batch_lem :
    {I : Type 0} (key_of : I → List ℕ) (one : ℕ → I → Mutation ℕ) (ctx : ℕ → Context)
    (inputs : List I) (n : ℕ) (e : Engine)
    → 0 < length inputs
    → n ≤ length inputs
    → ((k : ℕ) → k < n → ctx k ≡ live_ctx)
    → (n < length inputs → ctx n ≡ done_ctx)
    → batch key_of one ctx inputs e ≡ (
      (write_each key_of one 0 (take n inputs) e).0,
      ok (
          (write_each key_of one 0 (take n inputs) e).1
          ++ map (λ i. cancelled_result (key_of i)) (drop n inputs)),
    )
unfolding batch is_done is_nil is_empty
batch_lem key_of one ctx [] n e some_input within live stopped = absurd (omega arith)
batch_lem {I} key_of one ctx (input ∷ inputs) n e some_input within live stopped =
    rw
      (
        not_nil n within live stopped,
        run_batch-StopsAt key_of one (λ k. is_done (ctx k)) (input ∷ inputs) 0 n e within
            (λ k h. rw (zero-add k) (rw (live k h) refl))
            (λ h. rw (zero-add n) (rw (stopped h) refl)),
      )
      refl
  where
    not_nil :
        (n : ℕ)
        → n ≤ length (input ∷ inputs)
        → ((k : ℕ) → k < n → ctx k ≡ live_ctx)
        → (n < length (input ∷ inputs) → ctx n ≡ done_ctx)
        → is_nil (ctx 0) ≡ false
    not_nil zero within live stopped = rw (stopped (omega arith)) refl
    not_nil (suc n) within live stopped = rw (live 0 (omega arith)) refl
