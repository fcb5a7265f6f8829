-- ===== src/Server/Lifecycle/Outside.antt =====
-- A server whose user stops the `io_context` that `get_io_context()` gives.
use native.Mathlib.Omega.{arith}
use jsonrpc_for_cpp.Asio.{Acceptors}
use jsonrpc_for_cpp.Json.{JsonLib}
use jsonrpc_for_cpp.Results.{ok}
use jsonrpc_for_cpp.Prelude.{true, false, ◌≡◌, inl, refl}
use jsonrpc_for_cpp.Server.{
  ended, leave_running, start_async, try_enter_running, prepare_acceptor, do_accept, replace_worker,
}
use jsonrpc_for_cpp.Server.Lifecycle.{
  System, Reach, free, loop_returns, loop_restarts, loop_leaves, stop_context, restart_context,
  here, next,
}
use jsonrpc_for_cpp.Server.Lifecycle.Sound.{IsServing}

module _ ⦃J : JsonLib⦄ where
  module _ {W N : Type 0} (a : Acceptors N) where
    -- When the user of a serving server stops its `io_context`, the worker thread can leave the
    -- loop and end. The server is then not running, so that `stop` returns at once and joins
    -- nothing, and another `start` goes through and destroys the thread that was not joined, which
    -- ends the process.
    pub stop_context_terminates :
        (s : System W a.Endpoint N)
        → s.owner ≡ free
        → IsServing s.server
        → (t : System W a.Endpoint N) × Reach a (record s { server = stop_context s.server }) t
          × (t.owner ≡ free)
          × (t.server.running ≡ false)
          × (t.server.worker_thread ≡ ended)
          × ((start_async a t.server).0 ≡ ok tt)
          × ((start_async a t.server).1.terminated ≡ true)
    unfolding stop_context restart_context leave_running start_async try_enter_running
        prepare_acceptor do_accept replace_worker
    stop_context_terminates s o c = (
      record s {
        server = record (leave_running (restart_context s.server)) { worker_thread = ended };
      },
      next
          (next (next here (loop_returns (ground arith) (inl refl) refl)) (loop_restarts refl refl))
          (loop_leaves refl refl),
      o,
      refl,
      refl,
      ground arith,
      ground arith,
    )
