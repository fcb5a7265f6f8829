-- ===== src/Client/Loop.antt =====
-- The asynchronous calls of a client in its event loop: include/jsonrpc/impl/client.ipp over
-- impl/client_session.ipp. One thread runs the loop, so that a handler runs to its end before
-- another. A session works on the network through operations of its own; what the sessions share,
-- the state of the network, what is logged and what is called back, is in the client.
pub mod Handlers
pub mod Asking
pub mod Events
pub mod Accounts
pub mod Orders
pub mod Fair
pub mod Counts
pub mod Outcomes
pub mod Throws
use jsonrpc_for_cpp.Asio.{Report}
use jsonrpc_for_cpp.Client
use jsonrpc_for_cpp.Client.{
  Client, call, call_batch, notify, typed_request, create_session, leave_session,
}
use jsonrpc_for_cpp.ClientSession.{Network, Session, build_request}
use jsonrpc_for_cpp.ClientSession.Async.{on_response}
use jsonrpc_for_cpp.ClientSession.Async.Once.{handle}
use jsonrpc_for_cpp.ClientSession.Pending.{Operation, resolving, Phase, waits, through, turn}
use jsonrpc_for_cpp.Converter.Args.{Param, Tuple}
use jsonrpc_for_cpp.Converter.{Converter}
use jsonrpc_for_cpp.Types.Request.{Request}
use jsonrpc_for_cpp.Json.{JsonLib}
use jsonrpc_for_cpp.Prelude.{
  ℕ, List, [], ◌∷◌, ◌++◌, String, Option, none, some, get_elem?, set, ◌≡◌,
}
use jsonrpc_for_cpp.Protocol.{serialize_request}
use jsonrpc_for_cpp.Results.{Result, ok, throw}
use jsonrpc_for_cpp.Types.Response.{Response}

module _ ⦃J : JsonLib⦄ where
  -- A session with the user's callback. The session holds what only it changes.
  pub record Exchange (N : Type 0) : Type 1 where
    pub network : Network N
    pub callback : Response → Result (Unit {0})
    pub phase : Phase network.Endpoints
    pub session : Session N

  pub record Loop (N : Type 0) : Type 1 where
    pub client : Client N
    pub exchanges : List (Exchange N)

  -- A handler of this session ended its exchange, with this result of the user's callback.
  pub record Event : Type 0 where
    pub by : ℕ
    pub outcome : Report String
    pub result : Result (Unit {0})

  abbrev pub events : {E : Type 0} → ℕ → Phase E → Result (Unit {0}) → List Event
  events i (waits operation) result = []
  events i (through outcome) result = record { by = i; outcome = outcome; result = result } ∷ []

  -- What the callback of a handler returned, or what leaves the handler.
  abbrev pub result_of : List Event → Result (Unit {0})
  result_of [] = ok tt
  result_of (e ∷ es) = e.result

  module _ {N : Type 0} where
    abbrev pub open_loop : Client N → Loop N
    open_loop c = record { client = c; exchanges = [] }

    -- A session, with what all of them share.
    abbrev pub enter : Client N → Session N → Session N
    enter c s = record s { net = c.net; logs = c.logs; called = c.called }

    unfoldable pub async_call :
        Network N
        → String
        → (Response → Result (Unit {0}))
        → (ps : List Param) → Tuple ps
        → Loop N
        → Loop N
    unfolding Client.async_call
    async_call n method callback ps args l =
        let (session, d) = Client.async_call method ps args l.client in
        record {
          client = d;
          exchanges =
              l.exchanges
              ++ record {
                network = n;
                callback = callback;
                phase = waits resolving;
                session = session;
              }
                ∷ [];
        }

    -- An exchange that is over runs the handler that `async_call` passed.
    unfoldable pub pass_on :
        (n : Network N)
        → (Response → Result (Unit {0}))
        → Phase n.Endpoints
        → Session N
        → Result (Unit {0}) × Session N
    unfolding on_response
    pass_on n callback (waits operation) s = (ok tt, s)
    pass_on n callback (through outcome) s = handle n (on_response n callback) outcome s

    unfoldable pub run_handler :
        ℕ → (e : Exchange N) → Operation e.network.Endpoints → Loop N → List Event × Loop N
    unfolding turn pass_on leave_session
    run_handler i e operation l =
        let (phase, s) = turn e.network operation (enter l.client e.session) in
        let (result, t) = pass_on e.network e.callback phase s in
        (
          events i phase result,
          record {
            client = leave_session l.client t;
            exchanges = set l.exchanges i (record e { phase = phase; session = t });
          },
        )

    -- The operation of this session is complete: its handler runs.
    unfoldable pub complete : ℕ → Loop N → Option (List Event × Loop N)
    unfolding run_handler
    complete i l = elim (get_elem? l.exchanges i) [
      | none ↦ none
      | some e ↦ elim e.phase [
        | waits operation ↦ some (run_handler i e operation l)
        | through outcome ↦ none
      ]
    ]

    -- A call of `run`, `poll` or `run_for` that finds these handlers, in this order: what leaves
    -- one of them leaves the call, and the handlers after it do not run. The number of a session
    -- that waits for nothing stands for a handler of another: one of Boost's own, or one that the
    -- user posted. It changes nothing here.
    unfoldable pub run_for : List ℕ → Loop N → Result (Unit {0}) × Loop N
    unfolding complete
    run_for [] l = (ok tt, l)
    run_for (i ∷ is) l = elim (complete i l) [
      | none ↦ run_for is l
      | some (es, k) ↦ elim (result_of es) [ ok u ↦ run_for is k | throw x ↦ (throw x, k) ]
    ]

    -- The handlers of these sessions in this order, over as many such calls as it takes: after a
    -- call that an exception ended, the user makes another.
    unfoldable pub run_handlers : List ℕ → Loop N → List Event × Loop N
    unfolding complete
    run_handlers [] l = ([], l)
    run_handlers (i ∷ is) l = elim (complete i l) [
      | none ↦ run_handlers is l
      | some (es, k) ↦ (let (fs, last) = run_handlers is k in (es ++ fs, last))
    ]

    -- The user makes a call that waits, between two handlers.
    pub data Asks (c d : Client N) : Type 1 where
      one :
          {A : Type 0} (n : Network N) (converter : Converter A) (method : String) (ps : List Param)
          (args : Tuple ps)
          → d ≡ (call n converter method ps args c).1
          → Asks c d
      batch : (n : Network N) (requests : List Request) → d ≡ (call_batch n requests c).1 → Asks c d
      notification :
          (n : Network N) (method : String) (ps : List Param) (args : Tuple ps)
          → d ≡ notify n method ps args c
          → Asks c d

    -- The user calls, at any time, or a handler runs.
    pub data Step (l : Loop N) (es : List Event) (k : Loop N) : Type 1 where
      calls :
          (n : Network N) (method : String) (callback : Response → Result (Unit {0}))
          (ps : List Param) (args : Tuple ps)
          → es ≡ []
          → k ≡ async_call n method callback ps args l
          → Step l es k
      asks : (d : Client N) → Asks l.client d → es ≡ [] → k ≡ record l { client = d } → Step l es k
      completes : (i : ℕ) → complete i l ≡ some (es, k) → Step l es k

    pub data Run (l : Loop N) : List Event → Loop N → Type 1 where
      rest : Run l [] l
      step : {es fs : List Event} {m k : Loop N} → Run l es m → Step m fs k → Run l (es ++ fs) k
