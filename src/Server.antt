-- ===== src/Server.antt =====
-- include/jsonrpc/server.hpp and impl/server.ipp: the server object. Of the `io_context` the model
-- keeps its stop flag and the operations that are pending on it. `stop` and `run` are split where
-- another thread may come between: Server/Lifecycle and Server/Blocking put their parts together.
pub mod Lifecycle
pub mod Blocking
pub mod Restarts
pub mod Settings
pub mod Connections
pub mod Contract
use jsonrpc_for_cpp.Asio.{Acceptors, Report, broken, done, run_all}
use jsonrpc_for_cpp.Converter.Args.{Param, Tuple}
use jsonrpc_for_cpp.Registry
use jsonrpc_for_cpp.Registry.{Registry, new_registry}
use jsonrpc_for_cpp.Results.{Result, ok, throw, std_exception}
use jsonrpc_for_cpp.Wrapper.{Action}
use jsonrpc_for_cpp.Json.{JsonLib}
use Prim.Native.String.{◌++◌ as append}
use jsonrpc_for_cpp.Prelude.{
  List, [], ◌∷◌, ◌++◌, Bool, true, false, String, ℕ, ◌+◌, if◌then◌else◌, not,
}

-- `worker_thread_`: none, or how far its function is: in `io_context_.run()`, after it, after
-- `restart()`, and at its end.
pub data Thread : Type 0 where
  absent looping returned restarted ended : Thread

-- What `async_accept` passes to its handler.
pub data Accepted : Type 0 where
  connected : Accepted
  operation_aborted : Accepted
  failed_with : String → Accepted

-- What an accept completes with, unless the acceptor is closed first.
pub data Completion : Type 0 where
  connection : Completion
  failure : String → Completion

abbrev pub outcome_of : Completion → Accepted
outcome_of connection = connected
outcome_of (failure message) = failed_with message

module _ ⦃J : JsonLib⦄ where
  open J use {Value}

  -- `Server::Impl`. Of the accepts that are pending on the `io_context`, `waiting` counts those
  -- that are not complete. The handlers of the others are queued: `completed` has what they
  -- completed with, `refused` counts those that were asked of an acceptor that does not listen,
  -- and `aborted` those whose acceptor was closed. `sessions` counts the sessions that were started; `stopped` is its flag, and
  -- `terminated` stands for a call of `std::terminate`; `logger` tells whether there is one.
  pub record Server (W E N : Type 0) : Type 0 where
    pub acceptor : N
    pub registry : Registry W
    pub worker_thread : Thread
    pub running : Bool
    pub endpoint : E
    pub acceptor_ready : Bool
    pub waiting : ℕ
    pub completed : List Completion
    pub refused : ℕ
    pub aborted : ℕ
    pub sessions : ℕ
    pub stopped : Bool
    pub terminated : Bool
    pub logger : Bool
    pub logs : List String

  module _ {W E N : Type 0} where
    unfoldable pub log : String → Server W E N → Server W E N
    log message s = record s { logs = if s.logger then s.logs ++ message ∷ [] else s.logs }

    -- A logger that is set to an empty function is none.
    unfoldable pub set_logger : Bool → Server W E N → Server W E N
    set_logger logger s = record s { logger = logger }

    -- `compare_exchange_strong(false, true)`
    unfoldable pub try_enter_running : Server W E N → Bool × Server W E N
    try_enter_running s = (not s.running, record s { running = true })

    unfoldable pub leave_running : Server W E N → Server W E N
    leave_running s = record s { running = false }

    -- An acceptor that does not listen refuses at once, and the handler is queued.
    unfoldable pub do_accept : Server W E N → Server W E N
    do_accept s =
        if s.acceptor_ready
        then record s { waiting = s.waiting + 1 }
        else record s { refused = s.refused + 1 }

    unfoldable pub on_accept : Accepted → Server W E N → Server W E N
    unfolding do_accept log
    on_accept operation_aborted s = s
    on_accept (failed_with message) s = do_accept (log (append "接受连接失败: " message) s)
    on_accept connected s = do_accept (record s { sessions = s.sessions + 1 })

    -- `worker_thread_.reset(new std::thread(...))`: to destroy a thread that was not joined ends
    -- the process.
    unfoldable pub replace_worker : Thread → Server W E N → Server W E N
    replace_worker absent s = record s { worker_thread = looping }
    replace_worker _ s = record s { worker_thread = looping; terminated = true }

    abbrev pub is_running : Server W E N → Bool
    is_running s = s.running

    -- `register_method`, and `set_batch_concurrency`, which a running server refuses.
    unfoldable pub register_method :
        {R : Type 0} (name : String) (ps : List Param)
        → (Tuple ps → Action W R)
        → (R → Value)
        → Server W E N
        → Server W E N
    register_method name ps func encode s = record s {
      registry = Registry.register_method name ps func encode s.registry;
    }

    unfoldable pub set_batch_concurrency : ℕ → Server W E N → Result (Unit {0}) × Server W E N
    set_batch_concurrency threads s =
        if is_running s
        then (throw (std_exception "服务器正在运行时无法调整批量线程池，请先 stop()"), s)
        else (ok tt, record s { registry = Registry.set_batch_concurrency threads s.registry })

  module _ {N : Type 0} (a : Acceptors N) where
    -- What `prepare_acceptor` asks of an acceptor that is not ready.
    unfoldable pub open_bind_listen : a.Endpoint → N → Report (Unit {0}) × N
    open_bind_listen endpoint =
        run_all (a.open_acceptor endpoint ∷ a.set_reuse_address ∷ a.bind endpoint ∷ a.listen ∷ [])

    module _ {W : Type 0} where
      unfoldable pub prepare_acceptor :
          Server W a.Endpoint N → Result (Unit {0}) × Server W a.Endpoint N
      unfolding open_bind_listen
      prepare_acceptor s =
          if s.acceptor_ready
          then (ok tt, s)
          else (let (r, n) = open_bind_listen s.endpoint s.acceptor in
              elim r [
                | broken f ↦ (throw (std_exception f.what), record s { acceptor = n })
                | done _ ↦ (ok tt, record s { acceptor = n; acceptor_ready = true })
              ])

      -- Closing the acceptor aborts the accepts that wait. Those that are complete stay queued.
      unfoldable pub teardown_acceptor : Server W a.Endpoint N → Server W a.Endpoint N
      teardown_acceptor s = if not s.acceptor_ready then s else record s {
        acceptor = a.close s.acceptor;
        acceptor_ready = false;
        aborted = s.aborted + s.waiting;
        waiting = 0;
      }

      -- The constructors, at the number of processors and an acceptor that was made.
      unfoldable pub new_server : ℕ → String → ℕ → N → Result (Server W a.Endpoint N)
      unfolding prepare_acceptor
      new_server hardware_concurrency address port n = elim (a.make_endpoint address port) [
        | broken f ↦ throw (std_exception f.what)
        | done endpoint ↦
            (let (r, s) = prepare_acceptor (record {
              acceptor = n;
              registry = new_registry hardware_concurrency;
              worker_thread = absent;
              running = false;
              endpoint = endpoint;
              acceptor_ready = false;
              waiting = 0;
              completed = [];
              refused = 0;
              aborted = 0;
              sessions = 0;
              stopped = false;
              terminated = false;
              logger = false;
              logs = [];
            }) in
              elim r [ ok _ ↦ ok s | throw x ↦ throw x ])
      ]

      -- `Server(port)`, which listens on every interface.
      abbrev pub new_open_server : ℕ → ℕ → N → Result (Server W a.Endpoint N)
      new_open_server hardware_concurrency port = new_server hardware_concurrency "0.0.0.0" port

      unfoldable pub start_async : Server W a.Endpoint N → Result (Unit {0}) × Server W a.Endpoint N
      unfolding try_enter_running prepare_acceptor do_accept replace_worker
      start_async s =
          let (entered, t) = try_enter_running s in
          if not entered
          then (throw (std_exception "Server is already running"), t)
          else (let (r, u) = prepare_acceptor t in
              elim r [
                | throw x ↦ (throw x, u)
                | ok _ ↦ (ok tt, (let v = do_accept u in replace_worker v.worker_thread v))
              ])

      -- `run` up to the call of the `io_context`; the guard leaves the running state on the way out
      -- of an exception.
      unfoldable pub enter_run : Server W a.Endpoint N → Result (Unit {0}) × Server W a.Endpoint N
      unfolding try_enter_running prepare_acceptor do_accept leave_running
      enter_run s =
          let (entered, t) = try_enter_running s in
          if not entered
          then (throw (std_exception "Server is already running"), t)
          else (let (r, u) = prepare_acceptor t in
              elim r [ throw x ↦ (throw x, leave_running u) | ok _ ↦ (ok tt, do_accept u) ])
