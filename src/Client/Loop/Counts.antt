-- ===== src/Client/Loop/Counts.antt =====
-- How many callbacks the asynchronous calls of a client make.
use jsonrpc_for_cpp.Client.Loop.Orders.{
  run_handlers-Run, run_handlers-callbacks, run_handlers-length,
}
use jsonrpc_for_cpp.Asio.{Report}
use jsonrpc_for_cpp.Client.{Client}
use jsonrpc_for_cpp.Client.Loop.{
  Exchange, Loop, Event, Run, Step, rest, calls, completes, step, open_loop, async_call, events,
  run_handlers, asks,
}
use jsonrpc_for_cpp.Client.Loop.Accounts.{Run-Accounts, callbacks_of}
use jsonrpc_for_cpp.Client.Loop.Events.{Calls, silent, more, outcome_of}
use jsonrpc_for_cpp.Client.Loop.Fair.{IsFair, run_handlers-through}
use jsonrpc_for_cpp.Client.Loop.Handlers.{complete-Handled}
use jsonrpc_for_cpp.ClientSession.Pending.{Phase, waits, through}
use jsonrpc_for_cpp.ClientSession.Pending.Called.{Called, unreached, unreadable, answered, rejected}
use jsonrpc_for_cpp.Errors.{Error}
use jsonrpc_for_cpp.Json.{JsonLib}
use jsonrpc_for_cpp.Prelude.{
  ℕ, ◌+◌, suc, zero, ◌<◌, List, [], ◌∷◌, ◌++◌, some, get_elem?, set, length, All, All-get, ◌≡◌, ◌≢◌,
  refl, length-append, ap, String, ◌∙◌,
}
use jsonrpc_for_cpp.Results.{Result, throw, rpc}
use jsonrpc_for_cpp.Types.Response.{Response}
use mathlib.Core.Option.{some-injective}
use native.Mathlib.Omega.{arith}

module _ ⦃J : JsonLib⦄ where
  -- The callback throws no `Error`.
  abbrev pub IsCalm : (Response → Result (Unit {0})) → Type 0
  IsCalm callback = (x : Response) (e : Error) → callback x ≢ throw (rpc e)

  Called-length :
      (callback : Response → Result (Unit {0})) (outcome : Report String) (xs : List Response)
      (result : Result (Unit {0}))
      → IsCalm callback
      → Called callback outcome xs result
      → length xs ≡ 1
  Called-length callback outcome xs result calm (unreached same) = refl
  Called-length callback outcome xs result calm (unreadable p) = refl
  Called-length callback outcome xs result calm (answered p same other) = refl
  Called-length callback outcome xs result calm (rejected {r = r} {e = e} p thrown) =
      absurd (calm r e thrown)

  Calls-length :
      (callbacks : List (Response → Result (Unit {0}))) (es : List Event) (xs : List Response)
      → All IsCalm callbacks
      → Calls callbacks es xs
      → length xs ≡ length es
  Calls-length callbacks es xs calm silent = refl
  Calls-length callbacks es xs calm (more {e = e} {callback = callback} {xs = ys} {ys = zs} h p c) =
      omega (
        arith,
        length-append ys zs,
        Called-length callback e.outcome ys e.result (All-get IsCalm callbacks e.by calm h) p,
        Calls-length callbacks _ zs calm c,
      )

  length-events :
      {E : Type 0} (i : ℕ) (phase : Phase E) (result : Result (Unit {0}))
      → length (events i phase result) ≡ length (outcome_of phase)
  length-events i (waits operation) result = refl
  length-events i (through outcome) result = refl

  module _ {N : Type 0} where
    -- How many sessions are through.
    abbrev finished : List (Exchange N) → ℕ
    finished [] = 0
    finished (e ∷ es) = length (outcome_of e.phase) + finished es

    finished-set :
        (xs : List (Exchange N)) (i : ℕ) (e x : Exchange N)
        → get_elem? xs i ≡ some e
        → outcome_of e.phase ≡ []
        → finished (set xs i x) ≡ finished xs + length (outcome_of x.phase)
    finished-set [] i e x found waiting = absurd (ground arith)
    finished-set (y ∷ xs) zero e x found waiting =
        omega (
          arith,
          ap (λ z. length (outcome_of z.phase)) (some-injective y e found),
          ap length waiting,
        )
    finished-set (y ∷ xs) (suc i) e x found waiting =
        omega (arith, finished-set xs i e x found waiting)

    finished-snoc :
        (xs : List (Exchange N)) (x : Exchange N)
        → outcome_of x.phase ≡ []
        → finished (xs ++ x ∷ []) ≡ finished xs
    finished-snoc [] x h = omega (arith, ap length h)
    finished-snoc (y ∷ xs) x h = omega (arith, finished-snoc xs x h)

    finished-all :
        (xs : List (Exchange N))
        → ((i : ℕ)
            → i < length xs
            → (e : Exchange N) × (outcome : Report String) × (get_elem? xs i ≡ some e)
              × (e.phase ≡ through outcome))
        → finished xs ≡ length xs
    finished-all [] h = refl
    finished-all (y ∷ xs) h =
        let (e, outcome, found, over) = h 0 (omega arith) in
        omega (
          arith,
          ap (λ z. length (outcome_of z.phase)) (some-injective y e found),
          ap (λ z. length (outcome_of z)) over,
          finished-all xs (λ i k. h (suc i) (omega arith)),
        )

    Step-finished :
        (l k : Loop N) (es : List Event)
        → Step l es k
        → finished k.exchanges ≡ finished l.exchanges + length es
    Step-finished l k es (calls n method callback ps args quiet made) =
        ap (λ z. finished z.exchanges) made
        ∙ unfold async_call in finished-snoc l.exchanges _ refl ∙ omega (arith, ap length quiet)
    Step-finished l k es (asks d asked quiet made) =
        ap (λ z. finished z.exchanges) made ∙ omega (arith, ap length quiet)
    Step-finished l k es (completes i h) =
        let d = complete-Handled i l es k h in
        let x : Exchange _ = record d.exchange { phase = d.next; session = d.left } in
        omega (
          arith,
          ap finished d.stored,
          finished-set l.exchanges i d.exchange x d.found (ap outcome_of d.waiting),
          ap length d.made,
          length-events i d.next d.result,
        )

    Run-finished :
        (l k : Loop N) (es : List Event)
        → Run l es k
        → finished k.exchanges ≡ finished l.exchanges + length es
    Run-finished l k es rest = omega arith
    Run-finished l k es (step {es = before} {fs = after} {m = m} r s) =
        omega
          (arith, Run-finished l m before r, Step-finished m k after s, length-append before after)

  module _ {N : Type 0} (c : Client N) (es : List Event) (l : Loop N) where
    -- However the user made asynchronous calls of a client, with callbacks that throw no `Error`,
    -- and whatever handlers ran: once the handlers have run in an order in which each session has
    -- four turns, there have been as many callbacks as calls.
    pub called-length :
        (is : List ℕ)
        → Run (open_loop c) es l
        → All IsCalm (callbacks_of l.exchanges)
        → IsFair is l
        → length (run_handlers is l).1.client.called ≡ length c.called + length l.exchanges
    called-length is run calm fair =
        let (fs, k) = run_handlers is l in
        let whole = run_handlers-Run (open_loop c) es l is run in
        let a = Run-Accounts c (es ++ fs) k whole in
        omega (
          arith,
          ap length a.called,
          length-append c.called a.responses,
          Calls-length (callbacks_of k.exchanges) (es ++ fs) a.responses
              (rw (run_handlers-callbacks is l) calm) a.answers,
          Run-finished (open_loop c) k (es ++ fs) whole,
          finished-all k.exchanges
              (λ i h. run_handlers-through is l fair i (omega (arith, run_handlers-length is l))),
          run_handlers-length is l,
        )
