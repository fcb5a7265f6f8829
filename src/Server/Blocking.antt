-- ===== src/Server/Blocking.antt =====
-- A server that one thread runs by `run` and another stops by `stop`. The steps are those of
-- `Server.Lifecycle`, with the caller of `run` in the place of the worker thread, which `stop` has
-- none to join. The handlers of the event loop take no part in what is shown and are left out.
use native.Mathlib.Omega.{arith}
use jsonrpc_for_cpp.Asio.{Acceptors}
use jsonrpc_for_cpp.Json.{JsonLib}
use jsonrpc_for_cpp.Results.{ok}
use jsonrpc_for_cpp.Prelude.{true, false, ◌≡◌, ◌⊎◌, refl}
use jsonrpc_for_cpp.Server.{
  Server, Thread, absent, looping, returned, enter_run, leave_running, teardown_acceptor,
}
use jsonrpc_for_cpp.Server.Lifecycle.{
  Owner, free, exchanged, torn_down, told, joined, IsOutOfWork, stop_context, restart_context,
}

module _ ⦃J : JsonLib⦄ where
  pub record BlockingSystem (W E N : Type 0) : Type 0 where
    pub owner : Owner
    pub caller : Thread
    pub server : Server W E N

  module _ {W N : Type 0} (a : Acceptors N) where
    pub data BlockingStep (s t : BlockingSystem W a.Endpoint N) : Type 0 where
      enters :
          s.caller ≡ absent
          → (enter_run a s.server).0 ≡ ok tt
          → t ≡ record s { caller = looping; server = (enter_run a s.server).1 }
          → BlockingStep s t
      stops :
          s.owner ≡ free
          → s.server.running ≡ true
          → t ≡ record s { owner = exchanged; server = leave_running s.server }
          → BlockingStep s t
      closes :
          s.owner ≡ exchanged
          → t ≡ record s { owner = torn_down; server = teardown_acceptor a s.server }
          → BlockingStep s t
      halts :
          s.owner ≡ torn_down
          → t ≡ record s { owner = told; server = stop_context s.server }
          → BlockingStep s t
      has_no_worker :
          s.owner ≡ told
          → s.server.worker_thread ≡ absent
          → t ≡ record s { owner = joined }
          → BlockingStep s t
      restarts :
          s.owner ≡ joined
          → t ≡ record s { owner = free; server = restart_context s.server }
          → BlockingStep s t
      run_returns :
          s.caller ≡ looping
          → (s.server.stopped ≡ true) ⊎ IsOutOfWork s.server
          → t ≡ record s { caller = returned; server = stop_context s.server }
          → BlockingStep s t
      run_leaves :
          s.caller ≡ returned
          → t ≡ record s { caller = absent; server = leave_running (restart_context s.server) }
          → BlockingStep s t

    pub data BlockingReach (s : BlockingSystem W a.Endpoint N)
        : BlockingSystem W a.Endpoint N → Type 0 where
      here : BlockingReach s s
      next :
          {t u : BlockingSystem W a.Endpoint N}
          → BlockingReach s t
          → BlockingStep t u
          → BlockingReach s u

    -- While a thread is in the loop of `run`, and no other is in `stop`, a call of `stop` can
    -- return with that thread still in the loop: `stop` restarts the context at once, and the loop
    -- may not have seen that it was stopped. The server is then not running, its context is not
    -- stopped, and its sessions are open as before.
    pub stop_leaves_loop :
        (s : BlockingSystem W a.Endpoint N)
        → s.owner ≡ free
        → s.caller ≡ looping
        → s.server.running ≡ true
        → s.server.worker_thread ≡ absent
        → (t : BlockingSystem W a.Endpoint N) × BlockingReach s t
          × (t.owner ≡ free)
          × (t.caller ≡ looping)
          × (t.server.running ≡ false)
          × (t.server.stopped ≡ false)
          × (t.server.sessions ≡ s.server.sessions)
    unfolding leave_running stop_context restart_context
    stop_leaves_loop s o l on alone = (
      record s {
        owner = free;
        server = restart_context (stop_context (teardown_acceptor a (leave_running s.server)));
      },
      next
          (next (next (next (next here (stops o on refl)) (closes refl refl)) (halts refl refl))
            (has_no_worker refl (unfold teardown_acceptor in ground arith) refl))
          (restarts refl refl),
      refl,
      l,
      unfold teardown_acceptor in ground arith,
      refl,
      unfold teardown_acceptor in ground arith,
    )
