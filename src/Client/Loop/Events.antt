-- ===== src/Client/Loop/Events.antt =====
-- The events of a run of the event loop of a client, and the callbacks that belong to them.
use jsonrpc_for_cpp.Asio.{Report}
use jsonrpc_for_cpp.Client.Loop.{Event, events}
use jsonrpc_for_cpp.Client.Loop.Handlers.{Passed}
use jsonrpc_for_cpp.ClientSession.Pending.{Phase, waits, through}
use jsonrpc_for_cpp.ClientSession.Pending.Called.{Called}
use jsonrpc_for_cpp.Json.{JsonLib}
use jsonrpc_for_cpp.Prelude.{
  ℕ, List, [], ◌∷◌, ◌++◌, String, some, get_elem?, ◌==◌, if◌then◌else◌, ◌≡◌, refl, get_elem?-append,
  subst, ◌≢◌, sym,
}
use jsonrpc_for_cpp.Results.{Result}
use jsonrpc_for_cpp.Types.Response.{Response}
use mathlib.Core.List.{append-nil, append_assoc}
use native.Mathlib.Omega.{arith}

abbrev pub outcome_of : {E : Type 0} → Phase E → List (Report String)
outcome_of (waits operation) = []
outcome_of (through outcome) = outcome ∷ []

module _ ⦃J : JsonLib⦄ where
  -- The outcomes of the events of one session.
  abbrev pub outcomes_by : ℕ → List Event → List (Report String)
  outcomes_by i [] = []
  outcomes_by i (e ∷ es) = if e.by == i then e.outcome ∷ outcomes_by i es else outcomes_by i es

  pub outcomes_by-append :
      (i : ℕ) (es fs : List Event) → outcomes_by i (es ++ fs) ≡ outcomes_by i es ++ outcomes_by i fs
  outcomes_by-append i [] fs = refl
  outcomes_by-append i (e ∷ es) fs = ground (arith, outcomes_by-append i es fs)

  -- The responses that the callbacks of the sessions get, event by event.
  pub data Calls (callbacks : List (Response → Result (Unit {0})))
      : List Event → List Response → Type 0 where
    silent : Calls callbacks [] []
    more :
        {e : Event} {es : List Event} {callback : Response → Result (Unit {0})}
        {xs ys : List Response}
        → get_elem? callbacks e.by ≡ some callback
        → Called callback e.outcome xs e.result
        → Calls callbacks es ys
        → Calls callbacks (e ∷ es) (xs ++ ys)

  pub Calls-append :
      {callbacks : List (Response → Result (Unit {0}))} {es fs : List Event} {xs ys : List Response}
      → Calls callbacks es xs
      → Calls callbacks fs ys
      → Calls callbacks (es ++ fs) (xs ++ ys)
  Calls-append silent k = k
  Calls-append (more {xs = xs} h p c) k =
      subst (Calls _ _) (sym (append_assoc xs _ _)) (more h p (Calls-append c k))

  pub Calls-more :
      (callbacks extra : List (Response → Result (Unit {0}))) {es : List Event} {xs : List Response}
      → Calls callbacks es xs
      → Calls (callbacks ++ extra) es xs
  Calls-more callbacks extra silent = silent
  Calls-more callbacks extra (more {e = e} h p c) =
      more (get_elem?-append callbacks extra e.by h) p (Calls-more callbacks extra c)

  pub Calls-events :
      {E : Type 0} (callbacks : List (Response → Result (Unit {0}))) (i : ℕ) (phase : Phase E)
      (callback : Response → Result (Unit {0})) (result : Result (Unit {0})) (xs : List Response)
      → get_elem? callbacks i ≡ some callback
      → Passed callback phase xs result
      → Calls callbacks (events i phase result) xs
  Calls-events callbacks i (waits operation) callback result xs h p =
      subst (Calls callbacks []) (sym p) silent
  Calls-events callbacks i (through outcome) callback result xs h p =
      subst (Calls callbacks _) (append-nil xs) (more h p silent)

  pub outcomes_by-events :
      {E : Type 0} (i : ℕ) (phase : Phase E) (result : Result (Unit {0}))
      → outcomes_by i (events i phase result) ≡ outcome_of phase
  outcomes_by-events i (waits operation) result = refl
  outcomes_by-events i (through outcome) result = ground arith

  pub outcomes_by-events_ne :
      {E : Type 0} (i j : ℕ) (phase : Phase E) (result : Result (Unit {0}))
      → i ≢ j
      → outcomes_by j (events i phase result) ≡ []
  outcomes_by-events_ne i j (waits operation) result h = refl
  outcomes_by-events_ne i j (through outcome) result h = ground arith
