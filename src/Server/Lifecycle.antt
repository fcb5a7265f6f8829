-- ===== src/Server/Lifecycle.antt =====
-- A server that is used by `start` and `stop` from one thread: this owner and the worker thread as
-- steps in any order. An accept completes in one step, and its handler, which is queued until the
-- worker thread is in the loop of a context that is not stopped, runs in another. Of the `io_context` the steps
-- take what Boost.Asio documents: `run` returns when the context is stopped or has no work left,
-- which stops it, and handles no operation while it is stopped; closing an acceptor aborts what
-- waits on it.
pub mod Sound
pub mod Stops
pub mod Ends
pub mod Outside
pub mod Doubles
pub mod Running
use jsonrpc_for_cpp.Asio.{Acceptors}
use jsonrpc_for_cpp.Json.{JsonLib}
use jsonrpc_for_cpp.Prelude.{
  ◌++◌, true, false, ℕ, ◌-◌, ◌≡◌, ◌≢◌, ◌⊎◌, suc, List, String, [], ◌++◌, ◌∷◌,
}
use jsonrpc_for_cpp.Server.{
  Server, Completion, outcome_of, failed_with, absent, looping, returned, restarted, ended,
  operation_aborted, on_accept, leave_running, start_async, teardown_acceptor,
}

-- How far the owner's `stop` is: not called, or after the exchange of `running_`, the closing of
-- the acceptor, the stopping of the context, and the joining of the thread.
pub data Owner : Type 0 where
  free exchanged torn_down told joined : Owner

module _ ⦃J : JsonLib⦄ where
  pub record System (W E N : Type 0) : Type 0 where
    pub owner : Owner
    pub server : Server W E N

  module _ {W E N : Type 0} where
    -- An accept that waited is complete, and its handler is queued.
    unfoldable pub complete_accept : Completion → Server W E N → Server W E N
    complete_accept completion s = record s {
      waiting = s.waiting - 1;
      completed = s.completed ++ completion ∷ [];
    }

    -- The handler at the front of the queue.
    unfoldable pub handle_accept : Completion → List Completion → Server W E N → Server W E N
    unfolding on_accept
    handle_accept completion rest s =
        on_accept (outcome_of completion) (record s { completed = rest })

    -- The handler of an accept that was refused, with the message of Boost.
    unfoldable pub handle_refused : String → Server W E N → Server W E N
    unfolding on_accept
    handle_refused message s =
        on_accept (failed_with message) (record s { refused = s.refused - 1 })

    unfoldable pub handle_aborted : Server W E N → Server W E N
    unfolding on_accept
    handle_aborted s = on_accept operation_aborted (record s { aborted = s.aborted - 1 })

    -- `io_context_.stop()` and `io_context_.restart()`
    unfoldable pub stop_context : Server W E N → Server W E N
    stop_context s = record s { stopped = true }

    unfoldable pub restart_context : Server W E N → Server W E N
    restart_context s = record s { stopped = false }

    -- `worker_thread_.reset()` after the thread was joined, if there was one.
    unfoldable pub reset_worker : Server W E N → Server W E N
    reset_worker s = record s { worker_thread = absent }

    -- No operation is pending on the context.
    abbrev pub IsOutOfWork : Server W E N → Type 0
    IsOutOfWork s =
        (s.waiting ≡ 0) × (s.completed ≡ []) × (s.refused ≡ 0) × (s.aborted ≡ 0) × (s.sessions ≡ 0)

  module _ {W N : Type 0} (a : Acceptors N) where
    pub data Step (s t : System W a.Endpoint N) : Type 0 where
      starts : s.owner ≡ free → t ≡ record s { server = (start_async a s.server).1 } → Step s t
      stops :
          s.owner ≡ free
          → s.server.running ≡ true
          → t ≡ record { owner = exchanged; server = leave_running s.server }
          → Step s t
      closes :
          s.owner ≡ exchanged
          → t ≡ record { owner = torn_down; server = teardown_acceptor a s.server }
          → Step s t
      halts :
          s.owner ≡ torn_down
          → t ≡ record { owner = told; server = stop_context s.server }
          → Step s t
      joins :
          s.owner ≡ told
          → (s.server.worker_thread ≡ absent) ⊎ (s.server.worker_thread ≡ ended)
          → t ≡ record { owner = joined; server = reset_worker s.server }
          → Step s t
      restarts :
          s.owner ≡ joined
          → t ≡ record { owner = free; server = restart_context s.server }
          → Step s t
      completes :
          (completion : Completion)
          → s.server.waiting ≢ 0
          → t ≡ record s { server = complete_accept completion s.server }
          → Step s t
      accepts :
          (completion : Completion) (rest : List Completion)
          → s.server.worker_thread ≡ looping
          → s.server.stopped ≡ false
          → s.server.completed ≡ completion ∷ rest
          → t ≡ record s { server = handle_accept completion rest s.server }
          → Step s t
      refuses :
          (message : String)
          → s.server.worker_thread ≡ looping
          → s.server.stopped ≡ false
          → s.server.refused ≢ 0
          → t ≡ record s { server = handle_refused message s.server }
          → Step s t
      aborts :
          s.server.worker_thread ≡ looping
          → s.server.stopped ≡ false
          → s.server.aborted ≢ 0
          → t ≡ record s { server = handle_aborted s.server }
          → Step s t
      session_ends :
          (k : ℕ)
          → s.server.worker_thread ≡ looping
          → s.server.stopped ≡ false
          → s.server.sessions ≡ suc k
          → t ≡ record s { server = record s.server { sessions = k } }
          → Step s t
      loop_returns :
          s.server.worker_thread ≡ looping
          → (s.server.stopped ≡ true) ⊎ IsOutOfWork s.server
          → t ≡ record s { server = record (stop_context s.server) { worker_thread = returned } }
          → Step s t
      loop_restarts :
          s.server.worker_thread ≡ returned
          → t
            ≡ record s { server = record (restart_context s.server) { worker_thread = restarted } }
          → Step s t
      loop_leaves :
          s.server.worker_thread ≡ restarted
          → t ≡ record s { server = record (leave_running s.server) { worker_thread = ended } }
          → Step s t

    pub data Reach (s : System W a.Endpoint N) : System W a.Endpoint N → Type 0 where
      here : Reach s s
      next : {t u : System W a.Endpoint N} → Reach s t → Step t u → Reach s u
