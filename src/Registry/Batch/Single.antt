-- ===== src/Registry/Batch/Single.antt =====
-- A batch of one request, as every single call is run.
use jsonrpc_for_cpp.Types.Response.{Response}
use jsonrpc_for_cpp.Prelude.{
  ℕ, List, get_elem?, ◌≡◌, some, ◌∷◌, [], inl, if◌then◌else◌, suc, ◌≢◌, ◌⊎◌, inr, sym, zero, refl,
  ◌∙◌, Bool-cases,
}
use jsonrpc_for_cpp.Registry.Batch.{
  here, next, BatchState, batch_responses, count_task, run_task, Run, Step, Phase, queued, stored,
  BatchReturns, start_batch, finished, runs, task_response, at_once, counts, waited,
}
use jsonrpc_for_cpp.Types.Request.{Request}
use jsonrpc_for_cpp.Registry.{Registry}
use jsonrpc_for_cpp.Json.{JsonLib}
use native.Mathlib.Omega.{arith}
use mathlib.Core.Option.{some-injective}
use jsonrpc_for_cpp.Registry.Batch.Progress.{Run-IsCounted}

module _ ⦃J : JsonLib⦄ where
  module _ {W : Type 0} (g : Registry W) (r : Request) (w : W) where
    -- The task has not run, or has run at the state that the batch found.
    abbrev Before : BatchState W → Type 0
    Before s = (s.phases ≡ queued ∷ []) × (s.indexed_responses ≡ []) × (s.world ≡ w)

    abbrev After : BatchState W → Type 0
    After s =
        ((s.phases ≡ stored ∷ []) ⊎ (s.phases ≡ finished ∷ []))
        × (s.indexed_responses ≡ (if r.has_id then (0, (task_response g r w).0) ∷ [] else []))
        × (s.world ≡ (task_response g r w).1)

    runs-After :
        (i : ℕ) (q : Request) (s : BatchState W)
        → get_elem? s.phases i ≡ some queued
        → get_elem? (r ∷ []) i ≡ some q
        → Before s
        → After (run_task g i q s)
    unfolding run_task
    runs-After (suc i) q s h k b = absurd (ground arith)
    runs-After zero q s h k (p, a, b) =
        let same = some-injective r q k in rw (sym same, p, a, b) (inl refl, refl, refl)

    counts-After :
        (i : ℕ) (s : BatchState W)
        → get_elem? s.phases i ≡ some stored
        → After s
        → After (count_task i s)
    unfolding count_task
    counts-After (suc i) s h (inl p, a, b) = absurd (ground arith)
    counts-After (suc i) s h (inr p, a, b) = absurd (ground arith)
    counts-After zero s h (inl p, a, b) = (rw p (inr refl), a, b)
    counts-After zero s h (inr p, a, b) = absurd (ground arith)

    not_queued :
        (i : ℕ) (ps : List Phase)
        → (ps ≡ stored ∷ []) ⊎ (ps ≡ finished ∷ [])
        → get_elem? ps i ≢ some queued
    not_queued zero ps (inl p) h = ground arith
    not_queued zero ps (inr p) h = ground arith
    not_queued (suc i) ps (inl p) h = ground arith
    not_queued (suc i) ps (inr p) h = ground arith

    not_stored : (i : ℕ) (ps : List Phase) → ps ≡ queued ∷ [] → get_elem? ps i ≢ some stored
    not_stored zero ps p h = ground arith
    not_stored (suc i) ps p h = ground arith

    Step-After : {s t : BatchState W} → Step g (r ∷ []) s t → Before s ⊎ After s → After t
    Step-After {s} (runs i q h k e) (inl b) = rw e (runs-After i q s h k b)
    Step-After {s} (runs i q h k e) (inr a) = absurd (not_queued i s.phases a.0 h)
    Step-After {s} (counts i h e) (inl b) = absurd (not_stored i s.phases b.0 h)
    Step-After {s} (counts i h e) (inr a) = rw e (counts-After i s h a)

    Run-After :
        {n : ℕ} {s : BatchState W}
        → Run g (r ∷ []) (start_batch (r ∷ []) w) n s
        → Before s ⊎ After s
    Run-After here = unfold start_batch in inl (refl, refl, refl)
    Run-After (next run step) = inr (Step-After step (Run-After run))

    -- A batch of one request runs its task once, at the state that it finds: it leaves the state
    -- that the task leaves, and returns the task's response, or nothing for a notification.
    pub BatchReturns-single :
        (w' : W) (responses : List Response)
        → BatchReturns g (r ∷ []) w responses w'
        → (responses ≡ (if r.has_id then (task_response g r w).0 ∷ [] else []))
          × (w' ≡ (task_response g r w).1)
    unfolding batch_responses
    BatchReturns-single w' responses (at_once e f k) = absurd (ground arith)
    BatchReturns-single w' responses (waited {n} {s} h run completed f k) =
        let c = Run-IsCounted g (r ∷ []) w h run in
        elim (Run-After run) [
          | inl (p, a, b) ↦ absurd (ground (arith, c.kept))
          | inr (p, a, b) ↦ (
            f ∙ elim (Bool-cases r.has_id) [
              | inl identified ↦ rw (a, identified) refl
              | inr silent ↦ rw (a, silent) refl
            ],
            k ∙ b,
          )
        ]
