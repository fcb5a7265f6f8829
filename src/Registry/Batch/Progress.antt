-- ===== src/Registry/Batch/Progress.antt =====
-- How far a batch is: the counter, the promise, and the steps that are left.
use native.Mathlib.Omega.{arith}
use jsonrpc_for_cpp.Registry.{Registry}
use jsonrpc_for_cpp.Json.{JsonLib}
use jsonrpc_for_cpp.Prelude.{
  List, [], ◌∷◌, some, ℕ, ◌≡◌, get_elem?, map, suc, ◌↔◌, length, set, if◌then◌else◌, refl, ◌+◌,
  ◌==◌, length-set, zero, ◌≢◌, inl, length-map, ◌⊎◌, inr, sym,
}
use jsonrpc_for_cpp.Types.Request.{Request}
use jsonrpc_for_cpp.Registry.Batch.{
  here, next, Phase, queued, stored, finished, BatchState, run_task, count_task, Step, runs, counts,
  Run, start_batch, next,
}

-- The tasks that are not counted down yet.
abbrev pub pending : List Phase → ℕ
pending [] = 0
pending (finished ∷ ps) = pending ps
pending (queued ∷ ps) = suc (pending ps)
pending (stored ∷ ps) = suc (pending ps)

-- The steps that the tasks still have to take.
abbrev pub work : List Phase → ℕ
work [] = 0
work (finished ∷ ps) = work ps
work (queued ∷ ps) = suc (suc (work ps))
work (stored ∷ ps) = suc (work ps)

pending-store :
    (i : ℕ) (ps : List Phase)
    → get_elem? ps i ≡ some queued
    → (pending (set ps i stored) ≡ pending ps) × (suc (work (set ps i stored)) ≡ work ps)
pending-store i [] h = ground arith
pending-store zero (queued ∷ ps) h = (refl, refl)
pending-store zero (stored ∷ ps) h = ground arith
pending-store zero (finished ∷ ps) h = ground arith
pending-store (suc i) (p ∷ ps) h = ground (arith, pending-store i ps h)

pending-finish :
    (i : ℕ) (ps : List Phase)
    → get_elem? ps i ≡ some stored
    → (suc (pending (set ps i finished)) ≡ pending ps) × (suc (work (set ps i finished)) ≡ work ps)
pending-finish i [] h = ground arith
pending-finish zero (queued ∷ ps) h = ground arith
pending-finish zero (stored ∷ ps) h = (refl, refl)
pending-finish zero (finished ∷ ps) h = ground arith
pending-finish (suc i) (p ∷ ps) h = ground (arith, pending-finish i ps h)

work-eq-zero_iff : (ps : List Phase) → (work ps ≡ 0) ↔ (pending ps ≡ 0)
work-eq-zero_iff [] = ground arith
work-eq-zero_iff (finished ∷ ps) = work-eq-zero_iff ps
work-eq-zero_iff (queued ∷ ps) = ground arith
work-eq-zero_iff (stored ∷ ps) = ground arith

module _ ⦃J : JsonLib⦄ where
  pending-start :
      (rs : List Request)
      → let ps = map (λ (r : Request). queued) rs in
        (pending ps ≡ length rs) × (work ps ≡ length rs + length rs)
  pending-start [] = (refl, omega arith)
  pending-start (r ∷ rs) = omega (arith, pending-start rs)

  module _ {W : Type 0} (g : Registry W) (requests : List Request) where
    -- The counter counts the tasks that are left, and the promise has been kept once if there are
    -- none, and not yet if there are some.
    pub record IsCounted (s : BatchState W) : Type 0 where
      pub sized : length s.phases ≡ length requests
      pub counted : s.remaining ≡ pending s.phases
      pub kept : s.completions ≡ (if pending s.phases == 0 then 1 else 0)

    module _ {s t : BatchState W} where
      Step-IsCounted : Step g requests s t → IsCounted s → IsCounted t
      unfolding run_task count_task
      Step-IsCounted (runs i r h k e) c =
          ground (arith, pending-store i s.phases h, length-set s.phases i stored)
      Step-IsCounted (counts i h e) c =
          ground (arith, pending-finish i s.phases h, length-set s.phases i finished)

      Step-work : Step g requests s t → suc (work t.phases) ≡ work s.phases
      unfolding run_task count_task
      Step-work (runs i r h k e) = ground (arith, pending-store i s.phases h)
      Step-work (counts i h e) = ground (arith, pending-finish i s.phases h)

    start-IsCounted : (w : W) → requests ≢ [] → IsCounted (start_batch requests w)
    unfolding start_batch
    start-IsCounted w h = record {
      sized = length-map requests _;
      counted = sym (pending-start requests).0;
      kept = kept_none requests h;
    }
      where
        kept_none :
            (rs : List Request)
            → rs ≢ []
            → ◌≡◌ {A = ℕ} 0 (if pending (map (λ (r : Request). queued) rs) == 0 then 1 else 0)
        kept_none [] e = absurd (e refl)
        kept_none (r ∷ rs) e = ground arith

    -- Whatever the order of the steps, the counter counts the tasks that are left and the promise
    -- is kept when none is, and only once.
    pub Run-IsCounted :
        (w : W) {n : ℕ} {s : BatchState W}
        → requests ≢ []
        → Run g requests (start_batch requests w) n s
        → IsCounted s
    Run-IsCounted w h here = start-IsCounted w h
    Run-IsCounted w h (next run step) = Step-IsCounted step (Run-IsCounted w h run)

    Run-work :
        (w : W) {n : ℕ} {s : BatchState W}
        → Run g requests (start_batch requests w) n s
        → n + work s.phases ≡ length requests + length requests
    Run-work w here = unfold start_batch in omega (arith, (pending-start requests).1)
    Run-work w (next {n} {t} {u} run step) = omega (arith, Run-work w run, Step-work step)

    -- In every schedule of a batch of at least one request the promise has been kept, once,
    -- exactly after two steps for each request.
    pub Run-completes_iff :
        (w : W) {n : ℕ} {s : BatchState W}
        → requests ≢ []
        → Run g requests (start_batch requests w) n s
        → (s.completions ≡ 1) ↔ (n ≡ length requests + length requests)
    Run-completes_iff w {n} {s} h run =
        let c = Run-IsCounted w h run in
        ground (arith, Run-work w run, work-eq-zero_iff s.phases, c.kept)

    open_task :
        (ps : List Phase) (rs : List Request)
        → length ps ≡ length rs
        → pending ps ≢ 0
        → ((i : ℕ) × (r : Request) × (get_elem? ps i ≡ some queued) × (get_elem? rs i ≡ some r))
          ⊎ ((i : ℕ) × (get_elem? ps i ≡ some stored))
    open_task [] rs h k = absurd (k refl)
    open_task (p ∷ ps) [] h k = absurd (omega arith)
    open_task (queued ∷ ps) (r ∷ rs) h k = inl (zero, r, refl, refl)
    open_task (stored ∷ ps) (r ∷ rs) h k = inr (zero, refl)
    open_task (finished ∷ ps) (r ∷ rs) h k = elim (open_task ps rs (omega arith) k) [
      | inl (i, x, a, b) ↦ inl (suc i, x, a, b)
      | inr (i, a) ↦ inr (suc i, a)
    ]

    -- A batch of at least one request never gets stuck: in every state that a schedule reaches,
    -- while the promise has not been kept once, some task can take a step.
    pub Run-can-Step :
        (w : W) {n : ℕ} {s : BatchState W}
        → requests ≢ []
        → Run g requests (start_batch requests w) n s
        → s.completions ≢ 1
        → (t : BatchState W) × Step g requests s t
    Run-can-Step w {n} {s} h run open_promise =
        let c = Run-IsCounted w h run in
        elim (open_task s.phases requests c.sized (ground arith)) [
          | inl (i, r, a, b) ↦ (run_task g i r s, runs i r a b refl)
          | inr (i, a) ↦ (count_task i s, counts i a refl)
        ]
