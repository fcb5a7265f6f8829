-- ===== src/Registry/Batch/Stopped.antt =====
-- A batch whose pool is stopped: `set_batch_concurrency` of include/jsonrpc/impl/method_registry.ipp
-- calls `stop` and `join` on the pool that `invoke_batch` has posted its tasks to.
use jsonrpc_for_cpp.Registry.Batch.Progress.{Run-IsCounted, pending}
use jsonrpc_for_cpp.Types.Request.{Request}
use jsonrpc_for_cpp.Registry.{Registry}
use jsonrpc_for_cpp.Registry.Batch.{
  next, BatchState, count_task, Phase, Run, start_batch, queued, stored, counts, finished,
}
use jsonrpc_for_cpp.Prelude.{refl, ℕ, List, get_elem?, ◌≡◌, ◌≢◌, [], some, suc, set, ◌∷◌, zero}
use jsonrpc_for_cpp.Json.{JsonLib}
use native.Mathlib.Omega.{arith}

-- Another task's end leaves a queued task queued.
queued-finish :
    (i j : ℕ) (ps : List Phase)
    → get_elem? ps i ≡ some queued
    → get_elem? ps j ≡ some stored
    → get_elem? (set ps j finished) i ≡ some queued
queued-finish i j [] h k = absurd (ground arith)
queued-finish zero zero (p ∷ ps) h k = absurd (ground arith)
queued-finish zero (suc j) (p ∷ ps) h k = h
queued-finish (suc i) zero (p ∷ ps) h k = h
queued-finish (suc i) (suc j) (p ∷ ps) h k = queued-finish i j ps h k

pending-queued : (i : ℕ) (ps : List Phase) → get_elem? ps i ≡ some queued → pending ps ≢ 0
pending-queued i [] h e = absurd (ground arith)
pending-queued zero (queued ∷ ps) h e = omega arith
pending-queued zero (stored ∷ ps) h e = omega arith
pending-queued zero (finished ∷ ps) h e = ground arith
pending-queued (suc i) (queued ∷ ps) h e = omega arith
pending-queued (suc i) (stored ∷ ps) h e = omega arith
pending-queued (suc i) (finished ∷ ps) h e = pending-queued i ps h e

module _ ⦃J : JsonLib⦄ where
  module _ {W : Type 0} where
    -- What the tasks do once their pool is stopped: those that run go to their end, those that are
    -- queued are never run.
    pub data StoppedRun (s : BatchState W) : BatchState W → Type 0 where
      rest : StoppedRun s s
      then_counts :
          {t : BatchState W} (idx : ℕ)
          → StoppedRun s t
          → get_elem? t.phases idx ≡ some stored
          → StoppedRun s (count_task idx t)

    queued_stays :
        (i : ℕ) {s t : BatchState W}
        → StoppedRun s t
        → get_elem? s.phases i ≡ some queued
        → get_elem? t.phases i ≡ some queued
    unfolding count_task
    queued_stays i rest h = h
    queued_stays i (then_counts {t} j run k) h = queued-finish i j t.phases (queued_stays i run h) k

  module _ {W : Type 0} (g : Registry W) (requests : List Request) (w : W) where
    goes_on :
        {n : ℕ} {s t : BatchState W}
        → Run g requests (start_batch requests w) n s
        → StoppedRun s t
        → (m : ℕ) × Run g requests (start_batch requests w) m t
    goes_on {n} run rest = (n, run)
    goes_on run (then_counts i more h) =
        let (m, longer) = goes_on run more in (suc m, next longer (counts i h refl))

    -- A batch that has a task queued when the pool is stopped waits for ever: whatever its other
    -- tasks still do, the promise that it waits for is not kept.
    pub stopped_pool_waits :
        {n : ℕ} {s t : BatchState W} (i : ℕ)
        → requests ≢ []
        → Run g requests (start_batch requests w) n s
        → get_elem? s.phases i ≡ some queued
        → StoppedRun s t
        → t.completions ≡ 0
    stopped_pool_waits {n} {s} {t} i filled run waits more =
        let (m, longer) = goes_on run more in
        let c = Run-IsCounted g requests w filled longer in
        ground (arith, c.kept, pending-queued i t.phases (queued_stays i more waits))
