-- ===== src/Server/Contract.antt =====
-- include/jsonrpc/server.hpp: the class `Server` as its users see it, what its comments promise and
-- the implementation keeps. The user calls it from one thread while the worker thread runs.
pub mod Kept
use jsonrpc_for_cpp.Asio.{Acceptors, Report-cases}
use jsonrpc_for_cpp.Converter.Args.{Param, Tuple}
use jsonrpc_for_cpp.Json.{JsonLib}
use jsonrpc_for_cpp.Prelude.{
  Bool, true, false, String, List, ℕ, ◌≡◌, ◌≢◌, refl, ap, ◌∙◌, sym, subst, arith,
}
use jsonrpc_for_cpp.Results.{Result, ok, throw, std_exception}
use jsonrpc_for_cpp.Server.{Server, absent, new_server, start_async, enter_run}
use jsonrpc_for_cpp.Server
use jsonrpc_for_cpp.Server.Lifecycle.{
  System, Step, Reach, free, exchanged, joined, starts, here, next,
}
use jsonrpc_for_cpp.Server.Lifecycle.Sound.{IsSound, Step-IsSound, new_server-IsSound}
use jsonrpc_for_cpp.Server.Lifecycle.Running.{start_async-running}
use jsonrpc_for_cpp.Wrapper.{Action}

module _ ⦃J : JsonLib⦄ where
  open J use {Value}

  -- The operations. `construct` takes the number of processors and the state of the system; `run`
  -- is what it does before it blocks. Of `stop` there are the states in which it may return, and
  -- `moves` are the steps that the worker thread takes between calls.
  pub record ServerApi (W N S : Type 0) : Type 1 where
    pub construct : ℕ → String → ℕ → N → Result S
    pub register_method :
        {R : Type 0} (name : String) (ps : List Param)
        → (Tuple ps → Action W R)
        → (R → Value)
        → S
        → S
    pub run : S → Result (Unit {0}) × S
    pub start : S → Result (Unit {0}) × S
    pub stop : S → S → Type 0
    pub moves : S → S → Type 0
    pub is_running : S → Bool
    pub set_batch_concurrency : ℕ → S → Result (Unit {0}) × S
    pub set_logger : Bool → S → S

  -- What holds between calls, and what each call does there. Of what the comments promise, the
  -- closing of the connections by `stop` is left out, which the code does not do, and `start` is
  -- taken up only where it does not throw.
  pub record KeptPromises {W N S : Type 0} (api : ServerApi W N S) (Fits : S → Type 0)
      : Type 1 where
    pub made :
        (cores : ℕ) (address : String) (port : ℕ) (n : N) (s : S)
        → api.construct cores address port n ≡ ok s
        → Fits s
    pub keeps_start : (s : S) → Fits s → Fits (api.start s).1
    pub keeps_stop : (s t : S) → Fits s → api.stop s t → Fits t
    pub keeps_moves : (s t : S) → Fits s → api.moves s t → Fits t
    pub keeps_register :
        {R : Type 0} (name : String) (ps : List Param) (func : Tuple ps → Action W R)
        (encode : R → Value) (s : S)
        → Fits s
        → Fits (api.register_method name ps func encode s)
    pub start_runs : (s : S) → (api.start s).0 ≡ ok tt → api.is_running (api.start s).1 ≡ true
    pub start_refuses :
        (s : S)
        → api.is_running s ≡ true
        → api.start s ≡ (throw (std_exception "Server is already running"), s)
    pub run_refuses :
        (s : S)
        → api.is_running s ≡ true
        → api.run s ≡ (throw (std_exception "Server is already running"), s)
    pub stop_ends : (s t : S) → Fits s → api.stop s t → api.is_running t ≡ false
    pub concurrency_refuses :
        (threads : ℕ) (s : S)
        → api.is_running s ≡ true
        → api.set_batch_concurrency threads s
          ≡ (throw (std_exception "服务器正在运行时无法调整批量线程池，请先 stop()"), s)
    pub concurrency_takes :
        (threads : ℕ) (s : S)
        → api.is_running s ≡ false
        → (api.set_batch_concurrency threads s).0 ≡ ok tt

  module _ {N : Type 0} (a : Acceptors N) (W : Type 0) where
    abbrev at_rest : Server W a.Endpoint N → System W a.Endpoint N
    at_rest s = record { owner = free; server = s }

    -- Steps that do not end the call of `stop`.
    pub data Within (s : System W a.Endpoint N) : System W a.Endpoint N → Type 0 where
      begun : Within s s
      goes_on :
          {t u : System W a.Endpoint N} → Within s t → Step a t u → u.owner ≢ free → Within s u

    -- A call of `stop` from its exchange of the flag to its return; it returns at once from a
    -- server that is not running.
    pub data Stops (s t : Server W a.Endpoint N) : Type 0 where
      at_once : s.running ≡ false → t ≡ s → Stops s t
      in_steps :
          {u v : System W a.Endpoint N}
          → Step a (at_rest s) u
          → u.owner ≡ exchanged
          → Within u v
          → Step a v (at_rest t)
          → Stops s t

    abbrev pub server_api : ServerApi W N (Server W a.Endpoint N)
    server_api = record {
      construct = new_server a;
      register_method = Server.register_method;
      run = enter_run a;
      start = start_async a;
      stop = Stops;
      moves = λ s t. Step a (at_rest s) (at_rest t);
      is_running = Server.is_running;
      set_batch_concurrency = Server.set_batch_concurrency;
      set_logger = Server.set_logger;
    }

    abbrev pub Fits : Server W a.Endpoint N → Type 0
    Fits s = IsSound (at_rest s)
