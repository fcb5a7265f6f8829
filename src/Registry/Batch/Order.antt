-- ===== src/Registry/Batch/Order.antt =====
-- The responses of a batch, whatever the order of the steps.
use jsonrpc_for_cpp.Registry.Invoke.{invoke-id}
use jsonrpc_for_cpp.Results.{Result-cases}
use native.Mathlib.Omega.{arith}
use mathlib.Core.Path.{ap₂}
use jsonrpc_for_cpp.Registry.Batch.Progress.{pending, Run-IsCounted}
use jsonrpc_for_cpp.Registry.{Registry, invoke}
use jsonrpc_for_cpp.Json.{JsonLib}
use jsonrpc_for_cpp.Prelude.{
  List, [], ◌∷◌, some, select, ℕ, get_elem?, length, ◌≢◌, map, ◌≡◌, suc, Bool-cases,
  get_elem?_of_length, refl, inl, inr, ap, ◌∙◌,
}
use jsonrpc_for_cpp.Types.Request.{Request}
use jsonrpc_for_cpp.Types.Response.{Response, failure}
use jsonrpc_for_cpp.Registry.Batch.{
  Phase, queued, stored, finished, here, next, BatchReturns, at_once, waited, BatchState,
  batch_responses, count_task, run_task, IndexedResponse, Step, Run, sort_by_index, start_batch,
  runs, sort_onto, counts, task_response,
}
use jsonrpc_for_cpp.Registry.Batch.Sorted.{
  all_read, skipped, taken, Answers, Collects, Collects-set, sort_by_index-concat, Collects-store,
}

module _ ⦃J : JsonLib⦄ where
  -- The requests that want a response.
  abbrev pub calls : List Request → List Request
  calls = select (λ r. r.has_id)

  module _ {W : Type 0} (g : Registry W) where
    -- One response for each request, in the order of the requests.
    abbrev pub AnswersAll : List Request → List Response → Type 0
    AnswersAll [] [] = Unit
    AnswersAll [] (x ∷ xs) = ⊥
    AnswersAll (r ∷ rs) [] = ⊥
    AnswersAll (r ∷ rs) (x ∷ xs) = Answers g r x × AnswersAll rs xs

    Collects-start :
        (k : ℕ) (rs : List Request) → Collects g k rs (map (λ (r : Request). queued) rs) []
    Collects-start k [] = all_read
    Collects-start k (r ∷ rs) = skipped refl (Collects-start (suc k) rs)

    Collects-AnswersAll :
        (k : ℕ) (rs : List Request) (ps : List Phase) (es : List IndexedResponse)
        → Collects g k rs ps es
        → pending ps ≡ 0
        → AnswersAll (calls rs) (map (λ e. e.1) es)
    Collects-AnswersAll k rs ps es all_read h = tt
    Collects-AnswersAll k (r ∷ rs) (finished ∷ ps) es (skipped a c) h =
        simp a (Collects-AnswersAll (suc k) rs ps es c h)
    Collects-AnswersAll k (r ∷ rs) (finished ∷ ps) es (taken {es = rest} a b c) h =
        simp a (b, Collects-AnswersAll (suc k) rs ps rest c h)
    Collects-AnswersAll k (r ∷ rs) (queued ∷ ps) es c h = absurd (omega arith)
    Collects-AnswersAll k (r ∷ rs) (stored ∷ ps) es c h = absurd (omega arith)

    module _ (requests : List Request) where
      run_task-Collects :
          (i : ℕ) (r : Request) (s : BatchState W)
          → get_elem? s.phases i ≡ some queued
          → get_elem? requests i ≡ some r
          → Collects g 0 requests s.phases (sort_by_index s.indexed_responses)
          → Collects g 0 requests
              (run_task g i r s).phases
              (sort_by_index (run_task g i r s).indexed_responses)
      unfolding run_task
      run_task-Collects i r s h k c = elim (Bool-cases r.has_id) [
        | inl call ↦
            simp (call, sort_by_index-concat)
              (Collects-store g i 0 i requests s.phases (sort_by_index s.indexed_responses) r
                (task_response g r s.world).0 (omega arith) c h k call (s.world, refl))
        | inr notification ↦ simp notification (
            Collects-set g i 0 queued stored requests s.phases (sort_by_index s.indexed_responses) r
              c h k notification)
      ]

      count_task-Collects :
          (i : ℕ) (s : BatchState W)
          → length s.phases ≡ length requests
          → get_elem? s.phases i ≡ some stored
          → Collects g 0 requests s.phases (sort_by_index s.indexed_responses)
          → Collects g 0 requests
              (count_task i s).phases
              (sort_by_index (count_task i s).indexed_responses)
      unfolding count_task
      count_task-Collects i s l h c =
          let (r, k) = get_elem?_of_length s.phases requests i l h in
          Collects-set g i 0 stored finished requests s.phases (sort_by_index s.indexed_responses) r
            c h k refl

      Step-Collects :
          {s t : BatchState W}
          → Step g requests s t
          → length s.phases ≡ length requests
          → Collects g 0 requests s.phases (sort_by_index s.indexed_responses)
          → Collects g 0 requests t.phases (sort_by_index t.indexed_responses)
      Step-Collects {s} {t} (runs i r h k e) l c = rw e (run_task-Collects i r s h k c)
      Step-Collects {s} {t} (counts i h e) l c = rw e (count_task-Collects i s l h c)

      Run-Collects :
          (w : W) {n : ℕ} {s : BatchState W}
          → requests ≢ []
          → Run g requests (start_batch requests w) n s
          → Collects g 0 requests s.phases (sort_by_index s.indexed_responses)
      Run-Collects w h here = unfold start_batch sort_onto in Collects-start 0 requests
      Run-Collects w h (next run step) =
          Step-Collects step (Run-IsCounted g requests w h run).sized (Run-Collects w h run)

      Run-AnswersAll :
          (w : W) {n : ℕ} {s : BatchState W}
          → requests ≢ []
          → Run g requests (start_batch requests w) n s
          → s.completions ≡ 1
          → AnswersAll (calls requests) (batch_responses s)
      unfolding batch_responses
      Run-AnswersAll w {n} {s} h run done =
          let c = Run-IsCounted g requests w h run in
          Collects-AnswersAll 0 requests s.phases (sort_by_index s.indexed_responses)
            (Run-Collects w h run) (ground (arith, c.kept))

    -- A batch returns one response for each request with an identifier, in the order of the
    -- requests, whatever the order in which the pool ran the tasks.
    pub BatchReturns-AnswersAll :
        (requests : List Request) (w w' : W) (responses : List Response)
        → BatchReturns g requests w responses w'
        → AnswersAll (calls requests) responses
    BatchReturns-AnswersAll requests w w' responses (at_once e f s) = rw (e, f) tt
    BatchReturns-AnswersAll requests w w' responses (waited {n} {s} h run done f t) =
        rw f (Run-AnswersAll requests w h run done)

    task_response-id : (r : Request) (w : W) → (task_response g r w).0.id ≡ r.id
    unfolding task_response
    task_response-id r w = elim (Result-cases (invoke g r w).0) [
      | inl (x, h) ↦
          rw (h, task_response)
            (invoke-id g r w (invoke g r w).1 x (ap (λ z. (z, (invoke g r w).1)) h))
      | inr (e, h) ↦ unfold failure in rw (h, task_response)
    ]

    AnswersAll-ids :
        (rs : List Request) (xs : List Response)
        → AnswersAll rs xs
        → map (λ x. x.id) xs ≡ map (λ r. r.id) rs
    AnswersAll-ids [] [] h = refl
    AnswersAll-ids [] (x ∷ xs) h = elim h [ ]
    AnswersAll-ids (r ∷ rs) [] h = elim h [ ]
    AnswersAll-ids (r ∷ rs) (x ∷ xs) ((w, e), h) =
        ap₂ ◌∷◌ (ap (λ y. y.id) e ∙ task_response-id r w) (AnswersAll-ids rs xs h)

    -- Whatever the schedule, the identifiers of a batch's responses are those of its requests that
    -- have one, in order.
    pub BatchReturns-ids :
        (requests : List Request) (w w' : W) (responses : List Response)
        → BatchReturns g requests w responses w'
        → map (λ x. x.id) responses ≡ map (λ r. r.id) (calls requests)
    BatchReturns-ids requests w w' responses b =
        AnswersAll-ids (calls requests) responses
          (BatchReturns-AnswersAll requests w w' responses b)

    AnswersAll-map :
        (w : W) (rs : List Request) (xs : List Response)
        → ((r : Request) (v : W) → (task_response g r v).0 ≡ (task_response g r w).0)
        → AnswersAll rs xs
        → xs ≡ map (λ r. (task_response g r w).0) rs
    AnswersAll-map w [] [] pure h = refl
    AnswersAll-map w [] (x ∷ xs) pure h = elim h [ ]
    AnswersAll-map w (r ∷ rs) [] pure h = elim h [ ]
    AnswersAll-map w (r ∷ rs) (x ∷ xs) pure ((v, e), h) =
        ap₂ ◌∷◌ (e ∙ pure r v) (AnswersAll-map w rs xs pure h)

    -- If the response that a task gives does not depend on the state of the user's functions,
    -- every schedule of a batch returns the responses of its calls one by one, in order.
    pub BatchReturns-map :
        (requests : List Request) (w w' : W) (responses : List Response)
        → ((r : Request) (v : W) → (task_response g r v).0 ≡ (task_response g r w).0)
        → BatchReturns g requests w responses w'
        → responses ≡ map (λ r. (task_response g r w).0) (calls requests)
    BatchReturns-map requests w w' responses pure b =
        AnswersAll-map w (calls requests) responses pure
          (BatchReturns-AnswersAll requests w w' responses b)
