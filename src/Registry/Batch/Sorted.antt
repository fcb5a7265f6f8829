-- ===== src/Registry/Batch/Sorted.antt =====
-- The sorted vector, and the tasks whose responses it holds.
use native.Mathlib.Omega.{arith}
use jsonrpc_for_cpp.Registry.{Registry}
use jsonrpc_for_cpp.Json.{JsonLib}
use jsonrpc_for_cpp.Prelude.{
  List, [], ◌∷◌, some, Bool, false, ℕ, ◌++◌, ◌≡◌, get_elem?, refl, suc, true, ◌+◌, ◌<◌, set, zero,
  subst, ltb,
}
use jsonrpc_for_cpp.Types.Request.{Request}
use jsonrpc_for_cpp.Types.Response.{Response}
use jsonrpc_for_cpp.Registry.Batch.{
  Phase, queued, stored, finished, IndexedResponse, sort_onto, insert_by_index, sort_by_index,
  task_response,
}

module _ ⦃J : JsonLib⦄ where
  sort_onto-concat :
      (acc es : List IndexedResponse) (e : IndexedResponse)
      → sort_onto acc (es ++ e ∷ []) ≡ insert_by_index e (sort_onto acc es)
  unfolding sort_onto
  sort_onto-concat acc [] e = refl
  sort_onto-concat acc (x ∷ xs) e = sort_onto-concat (insert_by_index x acc) xs e

  -- An entry that was stored last is sorted in.
  pub sort_by_index-concat :
      (es : List IndexedResponse) (e : IndexedResponse)
      → sort_by_index (es ++ e ∷ []) ≡ insert_by_index e (sort_by_index es)
  sort_by_index-concat es e = sort_onto-concat [] es e

  -- The task has stored a response.
  abbrev pub holds : Phase → Request → Bool
  holds queued request = false
  holds stored request = request.has_id
  holds finished request = request.has_id

  module _ {W : Type 0} (g : Registry W) where
    -- The response is what the task answers to the request, in some state of the user's functions.
    abbrev pub Answers : Request → Response → Type 0
    Answers request response = (w : W) × (response ≡ (task_response g request w).0)

    -- The entries are those of the tasks that have stored one, in the order of the requests.
    pub data Collects : ℕ → List Request → List Phase → List IndexedResponse → Type 0 where
      all_read : {k : ℕ} → Collects k [] [] []
      skipped :
          {k : ℕ} {r : Request} {p : Phase} {rs : List Request} {ps : List Phase}
          {es : List IndexedResponse}
          → holds p r ≡ false
          → Collects (suc k) rs ps es
          → Collects k (r ∷ rs) (p ∷ ps) es
      taken :
          {k : ℕ} {r : Request} {p : Phase} {rs : List Request} {ps : List Phase}
          {es : List IndexedResponse} {x : Response}
          → holds p r ≡ true
          → Answers r x
          → Collects (suc k) rs ps es
          → Collects k (r ∷ rs) (p ∷ ps) ((k, x) ∷ es)

    -- An entry below all the tasks goes to the front.
    insert_below :
        (j k : ℕ) (rs : List Request) (ps : List Phase) (es : List IndexedResponse) (x : Response)
        → Collects k rs ps es
        → j < k
        → insert_by_index (j, x) es ≡ (j, x) ∷ es
    unfolding insert_by_index
    insert_below j k rs ps es x all_read h = refl
    insert_below j k (r ∷ rs) (p ∷ ps) es x (skipped a c) h =
        insert_below j (suc k) rs ps es x c (omega arith)
    insert_below j k rs ps es x (taken a b c) h = ground arith

    Collects-front :
        (k : ℕ) (r : Request) (x : Response) (rs : List Request) (ps : List Phase)
        (es : List IndexedResponse)
        → r.has_id ≡ true
        → Answers r x
        → Collects (suc k) rs ps es
        → Collects k (r ∷ rs) (stored ∷ ps) (insert_by_index (k, x) es)
    Collects-front k r x rs ps es h a c =
        rw (insert_below k (suc k) rs ps es x c (omega arith)) (taken h a c)

    -- A task that stores its response adds one entry, at its place.
    pub Collects-store :
        (i k n : ℕ) (rs : List Request) (ps : List Phase) (es : List IndexedResponse) (r : Request)
        (x : Response)
        → n ≡ k + i
        → Collects k rs ps es
        → get_elem? ps i ≡ some queued
        → get_elem? rs i ≡ some r
        → r.has_id ≡ true
        → Answers r x
        → Collects k rs (set ps i stored) (insert_by_index (n, x) es)
    unfolding insert_by_index
    Collects-store i k n rs ps es r x e all_read hp hr h a = cc
    Collects-store zero k n (r' ∷ rs) (p ∷ ps) es r x e (skipped b c) hp hr h a =
        let same : r ≡ r' = ground arith in
        let place : k ≡ n = omega arith in
        subst (λ m. Collects k (r' ∷ rs) (stored ∷ ps) (insert_by_index (m, x) es)) place
          (Collects-front k r' x rs ps es (rw (← same) h) (subst (λ z. Answers z x) same a) c)
    Collects-store zero k n (r' ∷ rs) (p ∷ ps) es r x e (taken b y c) hp hr h a = ground arith
    Collects-store (suc i) k n (r' ∷ rs) (p ∷ ps) es r x e (skipped b c) hp hr h a =
        skipped b (Collects-store i (suc k) n rs ps es r x (omega arith) c hp hr h a)
    Collects-store (suc i) k n (r' ∷ rs) (p ∷ ps) es r x e (taken {es = es'} b y c) hp hr h a =
        let above : ltb n k ≡ false = ground arith in
        rw above (taken b y (Collects-store i (suc k) n rs ps es' r x (omega arith) c hp hr h a))

    -- A notification's task, and the count of a task, change no entry.
    pub Collects-set :
        (i k : ℕ) (p q : Phase) (rs : List Request) (ps : List Phase) (es : List IndexedResponse)
        (r : Request)
        → Collects k rs ps es
        → get_elem? ps i ≡ some p
        → get_elem? rs i ≡ some r
        → holds q r ≡ holds p r
        → Collects k rs (set ps i q) es
    Collects-set i k p q rs ps es r all_read hp hr h = all_read
    Collects-set zero k p q (r' ∷ rs) (p' ∷ ps) es r (skipped b c) hp hr h =
        skipped (ground arith) c
    Collects-set zero k p q (r' ∷ rs) (p' ∷ ps) es r (taken b y c) hp hr h =
        taken (ground arith) y c
    Collects-set (suc i) k p q (r' ∷ rs) (p' ∷ ps) es r (skipped b c) hp hr h =
        skipped b (Collects-set i (suc k) p q rs ps es r c hp hr h)
    Collects-set (suc i) k p q (r' ∷ rs) (p' ∷ ps) es r (taken b y c) hp hr h =
        taken b y (Collects-set i (suc k) p q rs ps _ r c hp hr h)
