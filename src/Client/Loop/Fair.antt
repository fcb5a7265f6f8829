-- ===== src/Client/Loop/Fair.antt =====
-- When every asynchronous call of a client is through: any order of the handlers in which each
-- session has its turns.
use jsonrpc_for_cpp.Client.Loop.Orders.{run_handlers-Run, run_handlers-length}
use jsonrpc_for_cpp.Asio.{Report}
use jsonrpc_for_cpp.Client.{Client}
use jsonrpc_for_cpp.Client.Loop.{Exchange, Loop, Event, Run, open_loop, complete, run_handlers}
use jsonrpc_for_cpp.Client.Loop.Accounts.{Accounts, Run-Accounts, ended}
use jsonrpc_for_cpp.Client.Loop.Events.{outcomes_by, outcome_of}
use jsonrpc_for_cpp.Client.Loop.Handlers.{
  Handled, complete-Handled, rank, Phase-cases, rank-le, rank_zero,
}
use jsonrpc_for_cpp.ClientSession.Pending.{through}
use jsonrpc_for_cpp.Json.{JsonLib}
use jsonrpc_for_cpp.Prelude.{
  ℕ, ◌+◌, suc, ◌<◌, ◌≤◌, List, [], ◌∷◌, ◌++◌, Option, none, some, get_elem?, length, ◌==◌,
  if◌then◌else◌, ◌≡◌, ◌⊎◌, inl, inr, Option-cases, get_elem?-set_self, refl, ◌≢◌, get_elem?-set_ne,
  subst, String, zero, ◌∙◌, ap, ◌≤◌, ◌≤◌, ◌≤◌, ◌≤◌, ◌≤◌, ◌≤◌, ◌≤◌, ◌≤◌, ◌≤◌, ◌≤◌, ◌≤◌, ◌≤◌, ◌≤◌,
  ◌≤◌, ◌≤◌, ◌≤◌, ◌≤◌, ◌≤◌, ◌≤◌, ◌≤◌, ◌≤◌, ◌≤◌, ◌≤◌, ◌≤◌, ◌≤◌,
}
use native.Mathlib.Decide.{ℕ_discrete}
use native.Mathlib.Omega.{arith}

-- How often the order has this session.
abbrev pub turns : ℕ → List ℕ → ℕ
turns i [] = 0
turns i (j ∷ is) = if j == i then suc (turns i is) else turns i is

-- After some turns a session is through, or it has that many operations less to go.
abbrev Falls : ℕ → ℕ → ℕ → Type 0
Falls before n after = (after ≡ 0) ⊎ (after + n ≤ before)

skipped :
    (i j : ℕ) (is : List ℕ) (before after : ℕ)
    → (j ≡ i → before ≡ 0)
    → Falls before (turns i is) after
    → Falls before (turns i (j ∷ is)) after
skipped i j is before after none_left h = elim (ℕ_discrete j i) [
  | yes same ↦ inl (ground (arith, none_left same))
  | no other ↦ ground arith
]

taken :
    (i j : ℕ) (is : List ℕ) (before next after : ℕ)
    → (j ≡ i → next < before)
    → (j ≢ i → next ≡ before)
    → Falls next (turns i is) after
    → Falls before (turns i (j ∷ is)) after
taken i j is before next after less same h = elim (ℕ_discrete j i) [
  | yes e ↦ ground (arith, less e)
  | no e ↦ ground (arith, same e)
]

module _ ⦃J : JsonLib⦄ {N : Type 0} where
  abbrev rank_of : Option (Exchange N) → ℕ
  rank_of none = 0
  rank_of (some e) = rank e.phase

  abbrev rank_at : ℕ → Loop N → ℕ
  rank_at i l = rank_of (get_elem? l.exchanges i)

  Handled-falls :
      {i : ℕ} {l k : Loop N} {es : List Event} → Handled i l es k → rank_at i k < rank_at i l
  Handled-falls {i} {l} d =
      rw
        (
          d.stored,
          d.found,
          get_elem?-set_self l.exchanges i (record d.exchange { phase = d.next; session = d.left })
              d.found,
        )
        d.falls

  Handled-keeps :
      {i : ℕ} {l k : Loop N} {es : List Event} (j : ℕ)
      → Handled i l es k
      → i ≢ j
      → rank_at j k ≡ rank_at j l
  Handled-keeps {i} {l} j d h =
      rw
        (
          d.stored,
          get_elem?-set_ne l.exchanges {i = i} {j = j}
              (record d.exchange { phase = d.next; session = d.left }) h,
        )
        refl

  complete-none : (i : ℕ) (l : Loop N) → complete i l ≡ none → rank_at i l ≡ 0
  unfolding complete
  complete-none i l h = elim (Option-cases (get_elem? l.exchanges i)) [
    | inl gone ↦ rw gone refl
    | inr (e, found) ↦ elim (Phase-cases e.phase) [
      | inl (operation, waiting) ↦ absurd (ground arith)
      | inr (outcome, over) ↦ rw (found, over) refl
    ]
  ]

  run_handlers-rank :
      (i : ℕ) (is : List ℕ) (l : Loop N)
      → Falls (rank_at i l) (turns i is) (rank_at i (run_handlers is l).1)
  unfolding run_handlers
  run_handlers-rank i [] l = inr (omega arith)
  run_handlers-rank i (j ∷ is) l = elim (Option-cases (complete j l)) [
    | inl h ↦
        rw (h, run_handlers)
          (skipped i j is (rank_at i l) (rank_at i (run_handlers is l).1)
            (λ e. subst (λ z. rank_at z l ≡ 0) e (complete-none j l h)) (run_handlers-rank i is l))
    | inr ((es, k), h) ↦
        let handled = complete-Handled j l es k h in
        rw (h, run_handlers)
          (taken i j is (rank_at i l) (rank_at i k) (rank_at i (run_handlers is k).1)
            (λ e. subst (λ z. rank_at z k < rank_at z l) e (Handled-falls handled))
            (λ e. Handled-keeps i handled e) (run_handlers-rank i is k))
  ]

  get_elem?_of_lt :
      (xs : List (Exchange N)) (i : ℕ)
      → i < length xs
      → (x : Exchange N) × (get_elem? xs i ≡ some x)
  get_elem?_of_lt [] i h = absurd (omega arith)
  get_elem?_of_lt (x ∷ xs) zero h = (x, refl)
  get_elem?_of_lt (x ∷ xs) (suc i) h = get_elem?_of_lt xs i (omega arith)

  rank_at-le : (i : ℕ) (l : Loop N) → rank_at i l ≤ 4
  rank_at-le i l = elim (Option-cases (get_elem? l.exchanges i)) [
    | inl gone ↦ rw gone (omega arith)
    | inr (e, found) ↦ rw found (rank-le e.phase)
  ]

  -- Each session of this order has a turn for each operation that it may need.
  abbrev pub IsFair : List ℕ → Loop N → Type 0
  IsFair is l = (i : ℕ) → i < length l.exchanges → 4 ≤ turns i is

  -- After a fair order of the handlers, every session is through.
  pub run_handlers-through :
      (is : List ℕ) (l : Loop N)
      → IsFair is l
      → (i : ℕ) → i < length l.exchanges
      → (e : Exchange N) × (outcome : Report String) × (get_elem? (run_handlers is l).1.exchanges i
          ≡ some e)
        × (e.phase ≡ through outcome)
  run_handlers-through is l fair i h =
      let k = (run_handlers is l).1 in
      let (e, found) = get_elem?_of_lt k.exchanges i (omega (arith, run_handlers-length is l)) in
      let (outcome, over) =
        rank_zero e.phase
          (omega (arith, run_handlers-rank i is l, fair i h, rank_at-le i l, ap rank_of found)) in
      (e, outcome, found, over)

module _ ⦃J : JsonLib⦄ {N : Type 0} (c : Client N) (es : List Event) (l : Loop N) where
  -- Whatever calls the user made of a client, and whatever handlers ran: if the handlers then run in
  -- an order in which each session has four turns, over as many runs of the loop as it takes where
  -- callbacks throw, each asynchronous call has had exactly one event, and the callbacks are those of
  -- the events, in their order.
  pub Run-answered :
      (is : List ℕ) (i : ℕ)
      → Run (open_loop c) es l
      → IsFair is l
      → i < length l.exchanges
      → let (fs, k) = run_handlers is l in
        Accounts c (es ++ fs) k
        × (outcome : Report String) × (outcomes_by i (es ++ fs) ≡ outcome ∷ [])
  Run-answered is i run fair h =
      let a = Run-Accounts c _ _ (run_handlers-Run (open_loop c) es l is run) in
      let (e, outcome, found, over) = run_handlers-through is l fair i h in
      (a, outcome, a.once i ∙ ap ended found ∙ ap outcome_of over)
