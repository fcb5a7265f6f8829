-- ===== src/Client/Loop/Handlers.antt =====
-- What one handler does to the event loop of a client: include/jsonrpc/impl/client_session.ipp.
use jsonrpc_for_cpp.Asio.{Report, Report-cases}
use jsonrpc_for_cpp.Client.{leave_session}
use jsonrpc_for_cpp.Client.Loop.{
  Exchange, Loop, Event, enter, pass_on, events, run_handler, complete,
}
use jsonrpc_for_cpp.ClientSession.{Network, Session, write_request}
use jsonrpc_for_cpp.ClientSession.Pending.{
  Operation, resolving, connecting, writing, reading, Phase, waits, through, turn, on_resolve,
  on_connect, on_write, on_read, stop,
}
use jsonrpc_for_cpp.ClientSession.Pending.Called.{Called, handled-Called, turn-called}
use jsonrpc_for_cpp.Json.{JsonLib}
use jsonrpc_for_cpp.Prelude.{
  ℕ, ◌<◌, List, [], ◌++◌, String, some, get_elem?, set, ◌≡◌, refl, inl, inr, Option-cases, ◌⊎◌,
  subst, ◌≤◌,
}
use jsonrpc_for_cpp.Results.{Result}
use jsonrpc_for_cpp.Types.Response.{Response}
use mathlib.Core.List.{append-nil}
use mathlib.Core.Option.{some-injective}
use native.Mathlib.Omega.{arith}

-- How many operations a session has left at most.
abbrev pub rank : {E : Type 0} → Phase E → ℕ
rank (waits resolving) = 4
rank (waits (connecting endpoints)) = 3
rank (waits writing) = 2
rank (waits reading) = 1
rank (through outcome) = 0

pub rank-le : {E : Type 0} (phase : Phase E) → rank phase ≤ 4
rank-le (waits resolving) = omega arith
rank-le (waits (connecting endpoints)) = omega arith
rank-le (waits writing) = omega arith
rank-le (waits reading) = omega arith
rank-le (through outcome) = omega arith

pub rank_zero :
    {E : Type 0} (phase : Phase E)
    → rank phase ≡ 0
    → (outcome : Report String) × (phase ≡ through outcome)
rank_zero (waits resolving) h = absurd (omega arith)
rank_zero (waits (connecting endpoints)) h = absurd (omega arith)
rank_zero (waits writing) h = absurd (omega arith)
rank_zero (waits reading) h = absurd (omega arith)
rank_zero (through outcome) h = (outcome, refl)

rank-turn :
    ⦃J : JsonLib⦄ {N : Type 0} (n : Network N) (operation : Operation n.Endpoints) (s : Session N)
    → rank (turn n operation s).0 < rank (waits operation)
unfolding turn write_request on_resolve on_connect on_write on_read stop
rank-turn n resolving s = elim (Report-cases (n.resolve s.host s.port s.net).0) [
  | inl (a, h) ↦ rw h (omega arith)
  | inr (ec, h) ↦ rw h (omega arith)
]
rank-turn n (connecting endpoints) s = elim (Report-cases (n.connect endpoints s.net).0) [
  | inl (a, h) ↦ rw h (omega arith)
  | inr (ec, h) ↦ rw h (omega arith)
]
rank-turn n writing s = elim (Report-cases (write_request n s.req s.net).0) [
  | inl (a, h) ↦ rw h (omega arith)
  | inr (ec, h) ↦ rw h (omega arith)
]
rank-turn n reading s = elim (Report-cases (n.read s.net).0) [
  | inl (a, h) ↦ rw h (omega arith)
  | inr (ec, h) ↦ rw h (omega arith)
]

pub Phase-cases :
    {E : Type 0} (phase : Phase E)
    → ((operation : Operation E) × (phase ≡ waits operation))
      ⊎ ((outcome : Report String) × (phase ≡ through outcome))
Phase-cases (waits operation) = inl (operation, refl)
Phase-cases (through outcome) = inr (outcome, refl)

module _ ⦃J : JsonLib⦄ where
  -- The responses that the user got when a session came to this phase.
  abbrev pub Passed :
      {E : Type 0}
      → (Response → Result (Unit {0}))
      → Phase E
      → List Response
      → Result (Unit {0})
      → Type 0
  Passed callback (waits operation) xs r = xs ≡ []
  Passed callback (through outcome) xs r = Called callback outcome xs r

  pass_on-Passed :
      {N : Type 0} (n : Network N) (callback : Response → Result (Unit {0}))
      (phase : Phase n.Endpoints) (s : Session N)
      → (xs : List Response) × Passed callback phase xs (pass_on n callback phase s).0
        × ((pass_on n callback phase s).1.called ≡ s.called ++ xs)
  unfolding pass_on
  pass_on-Passed n callback (waits operation) s = ([], refl, rw append-nil refl)
  pass_on-Passed n callback (through outcome) s = handled-Called callback n outcome s

  module _ {N : Type 0} where
    -- The handler of session `i` led from `l` to `k`, with these events.
    pub record Handled (i : ℕ) (l : Loop N) (es : List Event) (k : Loop N) : Type 1 where
      pub exchange : Exchange N
      pub operation : Operation exchange.network.Endpoints
      pub found : get_elem? l.exchanges i ≡ some exchange
      pub waiting : exchange.phase ≡ waits operation
      pub next : Phase exchange.network.Endpoints
      pub falls : rank next < rank exchange.phase
      pub result : Result (Unit {0})
      pub left : Session N
      pub made : es ≡ events i next result
      pub stored :
          k.exchanges ≡ set l.exchanges i (record exchange { phase = next; session = left })
      pub responses : List Response
      pub passed : Passed exchange.callback next responses result
      pub called : k.client.called ≡ l.client.called ++ responses

    run_handler-Handled :
        (i : ℕ) (l : Loop N) (e : Exchange N) (operation : Operation e.network.Endpoints)
        → get_elem? l.exchanges i ≡ some e
        → e.phase ≡ waits operation
        → Handled i l (run_handler i e operation l).0 (run_handler i e operation l).1
    unfolding run_handler leave_session
    run_handler-Handled i l e operation found waiting =
        let (phase, s) = turn e.network operation (enter l.client e.session) in
        let (xs, passed, called) = pass_on-Passed e.network e.callback phase s in
        record {
          exchange = e;
          operation = operation;
          found = found;
          waiting = waiting;
          next = phase;
          falls = rw waiting (rank-turn e.network operation (enter l.client e.session));
          result = (pass_on e.network e.callback phase s).0;
          left = (pass_on e.network e.callback phase s).1;
          made = refl;
          stored = refl;
          responses = xs;
          passed = passed;
          called = rw (called, turn-called e.network operation (enter l.client e.session)) refl;
        }

    pub complete-Handled :
        (i : ℕ) (l : Loop N) (es : List Event) (k : Loop N)
        → complete i l ≡ some (es, k)
        → Handled i l es k
    unfolding complete
    complete-Handled i l es k h = elim (Option-cases (get_elem? l.exchanges i)) [
      | inl gone ↦ absurd (ground arith)
      | inr (e, found) ↦ elim (Phase-cases e.phase) [
        | inr (outcome, over) ↦ absurd (ground arith)
        | inl (operation, waiting) ↦
            subst (λ z. Handled i l z.0 z.1)
              (some-injective _ _ (rw (found, waiting, complete) at h))
              (run_handler-Handled i l e operation found waiting)
      ]
    ]
