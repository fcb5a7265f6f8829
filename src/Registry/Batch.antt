-- ===== src/Registry/Batch.antt =====
-- `MethodRegistry::invoke_batch`: the tasks that it posts, as steps that the pool may take in any
-- order. A step runs one task up to the storing of its response, or counts one task down. What `fetch_sub` would do at 0 is left out: no step counts there.
pub mod Sorted
pub mod Progress
pub mod Order
pub mod Single
pub mod Stopped
use jsonrpc_for_cpp.Errors.ErrorCode
use jsonrpc_for_cpp.Errors.{error_of}
use jsonrpc_for_cpp.Results.{ok, throw}
use jsonrpc_for_cpp.Registry.{Registry, invoke}
use jsonrpc_for_cpp.Json.{JsonLib}
use jsonrpc_for_cpp.Prelude.{
  List, [], ◌∷◌, none, some, if◌then◌else◌, map, ℕ, get_elem?, length, ltb, set, zero, suc, ◌++◌,
  ◌-◌, ◌≡◌, ◌==◌, ◌+◌, ◌≢◌,
}
use jsonrpc_for_cpp.Types.Request.{Request}
use jsonrpc_for_cpp.Types.Response.{Response, failure}

pub data Phase : Type 0 where
  queued stored finished : Phase

module _ ⦃J : JsonLib⦄ where
  open J use {Value}

  -- `IndexedResponse`
  abbrev pub IndexedResponse : Type 0
  IndexedResponse = ℕ × Response

  pub record BatchState (W : Type 0) : Type 0 where
    pub phases : List Phase
    pub indexed_responses : List IndexedResponse
    pub remaining : ℕ
    pub completions : ℕ
    pub world : W

  -- `std::sort` by index. The indices are distinct, so any sort gives this list.
  unfoldable pub insert_by_index : IndexedResponse → List IndexedResponse → List IndexedResponse
  insert_by_index e [] = e ∷ []
  insert_by_index e (x ∷ xs) = if ltb e.0 x.0 then e ∷ x ∷ xs else x ∷ insert_by_index e xs

  unfoldable pub sort_onto : List IndexedResponse → List IndexedResponse → List IndexedResponse
  unfolding insert_by_index
  sort_onto sorted [] = sorted
  sort_onto sorted (e ∷ es) = sort_onto (insert_by_index e sorted) es

  abbrev pub sort_by_index : List IndexedResponse → List IndexedResponse
  sort_by_index es = sort_onto [] es

  module _ {W : Type 0} where
    -- The vector that `invoke_batch` returns, of the state in which it stops waiting.
    unfoldable pub batch_responses : BatchState W → List Response
    unfolding sort_onto
    batch_responses s = map (λ e. e.1) (sort_by_index s.indexed_responses)

    unfoldable pub start_batch : List Request → W → BatchState W
    start_batch requests w = record {
      phases = map (λ r. queued) requests;
      indexed_responses = [];
      remaining = length requests;
      completions = 0;
      world = w;
    }

    -- The response of one task, with the `catch (...)` of its body.
    unfoldable pub task_response : Registry W → Request → W → Response × W
    unfolding invoke
    task_response g request w =
        let (r, w') = invoke g request w in
        (
          elim r [
            | ok response ↦ response
            | throw e ↦ failure (error_of ErrorCode.internal_error "批量调用失败") request.id
          ],
          w',
        )

    -- What the function of the user does to the state that such functions share is one atomic
    -- action, as where it locks that state; responses are stored under a mutex.
    unfoldable pub run_task : Registry W → ℕ → Request → BatchState W → BatchState W
    run_task g idx request s =
        let (response, w') = task_response g request s.world in
        record s {
          phases = set s.phases idx stored;
          indexed_responses =
              if request.has_id
              then s.indexed_responses ++ (idx, response) ∷ []
              else s.indexed_responses;
          world = w';
        }

    -- `if (remaining->fetch_sub(1) == 1) completion_promise->set_value();`
    unfoldable pub count_task : ℕ → BatchState W → BatchState W
    count_task idx s = record s {
      phases = set s.phases idx finished;
      remaining = s.remaining - 1;
      completions = if s.remaining == 1 then s.completions + 1 else s.completions;
    }

    pub data Step (g : Registry W) (requests : List Request) (s t : BatchState W) : Type 0 where
      runs :
          (idx : ℕ) (request : Request)
          → get_elem? s.phases idx ≡ some queued
          → get_elem? requests idx ≡ some request
          → t ≡ run_task g idx request s
          → Step g requests s t
      counts :
          (idx : ℕ)
          → get_elem? s.phases idx ≡ some stored
          → t ≡ count_task idx s
          → Step g requests s t

    -- So many steps lead from one state to another.
    pub data Run (g : Registry W) (requests : List Request) (s : BatchState W)
        : ℕ → BatchState W → Type 0 where
      here : Run g requests s zero s
      next :
          {n : ℕ} {t u : BatchState W}
          → Run g requests s n t
          → Step g requests t u
          → Run g requests s (suc n) u

    -- What `invoke_batch` may return: nothing at once for no requests, or else the responses
    -- stored when the promise has been kept.
    pub data BatchReturns (g : Registry W) (requests : List Request) (w : W)
        (responses : List Response) (w' : W) : Type 0 where
      at_once : requests ≡ [] → responses ≡ [] → w' ≡ w → BatchReturns g requests w responses w'
      waited :
          {n : ℕ} {s : BatchState W}
          → requests ≢ []
          → Run g requests (start_batch requests w) n s
          → s.completions ≡ 1
          → responses ≡ batch_responses s
          → w' ≡ s.world
          → BatchReturns g requests w responses w'
