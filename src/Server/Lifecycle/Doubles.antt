-- ===== src/Server/Lifecycle/Doubles.antt =====
-- A server that is stopped while the handler of a complete accept is queued, and started again.
use jsonrpc_for_cpp.Server.Lifecycle.{
  completes, handle_accept, restart_context, stop_context, complete_accept, reset_worker, System,
  Reach, free, next, here, stops, closes, halts, loop_returns, loop_restarts, loop_leaves, joins,
  restarts, starts, accepts,
}
use jsonrpc_for_cpp.Server.{
  Completion, Server, leave_running, start_async, on_accept, returned, teardown_acceptor,
  try_enter_running, absent, do_accept, prepare_acceptor, restarted, ended, log, replace_worker,
  open_bind_listen, looping, failure, connection,
}
use native.Mathlib.Omega.{arith}
use jsonrpc_for_cpp.Asio.{Acceptors, done}
use jsonrpc_for_cpp.Json.{JsonLib}
use jsonrpc_for_cpp.Prelude.{[], ◌∷◌, true, false, ◌≡◌, inl, inr, refl, ap, ◌∙◌, ◌++◌}

module _ ⦃J : JsonLib⦄ where
  handled :
      {W E N : Type 0} (completion : Completion) (u : Server W E N)
      → u.acceptor_ready ≡ true
      → u.waiting ≡ 1
      → ((handle_accept completion [] u).waiting ≡ 2)
        × ((handle_accept completion [] u).running ≡ u.running)
        × ((handle_accept completion [] u).worker_thread ≡ u.worker_thread)
  unfolding handle_accept on_accept do_accept log
  handled connection u ready one = ground arith
  handled (failure message) u ready one = ground arith

  module _ {W N : Type 0} (a : Acceptors N) (completion : Completion)
      (s : Server W a.Endpoint N) where
    -- The server from the exchange of `stop` to its last statement, and after `start`.
    abbrev exchanging : Server W a.Endpoint N
    exchanging = leave_running (complete_accept completion s)

    abbrev halting : Server W a.Endpoint N
    halting = stop_context (teardown_acceptor a exchanging)

    abbrev leaving : Server W a.Endpoint N
    leaving =
        record (leave_running
          (record (restart_context (record (stop_context halting) { worker_thread = returned })) {
            worker_thread = restarted;
          })) { worker_thread = ended }

    abbrev stopping : Server W a.Endpoint N
    stopping = restart_context (reset_worker leaving)

    abbrev restarting : Server W a.Endpoint N
    restarting = (start_async a stopping).1

    stopping-IsClosed :
        s.acceptor_ready ≡ true
        → (stopping.running ≡ false)
          × (stopping.acceptor_ready ≡ false)
          × (stopping.waiting ≡ 0)
          × (stopping.stopped ≡ false)
          × (stopping.worker_thread ≡ absent)
          × (stopping.completed ≡ s.completed ++ completion ∷ [])
          × (stopping.acceptor ≡ a.close s.acceptor)
          × (stopping.endpoint ≡ s.endpoint)
    unfolding leave_running complete_accept teardown_acceptor stop_context restart_context
        reset_worker
    stopping-IsClosed ready = ground arith

    started :
        (u : Server W a.Endpoint N)
        → u.running ≡ false
        → u.acceptor_ready ≡ false
        → (open_bind_listen a u.endpoint u.acceptor).0 ≡ done tt
        → u.worker_thread ≡ absent
        → u.waiting ≡ 0
        → ((start_async a u).1.running ≡ true)
          × ((start_async a u).1.acceptor_ready ≡ true)
          × ((start_async a u).1.waiting ≡ 1)
          × ((start_async a u).1.stopped ≡ u.stopped)
          × ((start_async a u).1.worker_thread ≡ looping)
          × ((start_async a u).1.completed ≡ u.completed)
    unfolding start_async try_enter_running prepare_acceptor do_accept replace_worker
    started u off unready opens alone idle = ground arith

    looping_on : s.worker_thread ≡ looping → halting.worker_thread ≡ looping
    unfolding leave_running complete_accept teardown_acceptor stop_context
    looping_on loops = ground arith

    -- A running server has its worker thread in the loop, one accept that waits on its open acceptor,
    -- and no handler of another queued. If this accept completes when `stop` is called, and its
    -- handler has not run when the context is told, then the next `start`, on an acceptor that opens
    -- again, can run that handler besides its own accept: two accepts wait on the new acceptor.
    pub restart_doubles :
        s.worker_thread ≡ looping
        → s.running ≡ true
        → s.acceptor_ready ≡ true
        → s.waiting ≡ 1
        → s.completed ≡ []
        → (open_bind_listen a s.endpoint (a.close s.acceptor)).0 ≡ done tt
        → (t : System W a.Endpoint N) × Reach a (record { owner = free; server = s }) t
          × (t.owner ≡ free)
          × (t.server.worker_thread ≡ looping)
          × (t.server.running ≡ true)
          × (t.server.waiting ≡ 2)
    restart_doubles loops on ready one none opens =
        let (off, closed, idle, unstopped, alone, queue, shut, same) = stopping-IsClosed ready in
        let opened : (open_bind_listen a stopping.endpoint stopping.acceptor).0 ≡ done tt =
          rw (same, shut) opens in
        let (runs, listens, waits, goes, works, kept) =
          started stopping off closed opened alone idle in
        let (two, still, thread) = handled completion restarting listens waits in
        let queued : restarting.completed ≡ completion ∷ [] =
          kept ∙ queue ∙ ap (λ z. z ++ completion ∷ []) none in
        (
          record { owner = free; server = handle_accept completion [] restarting },
          next
              (next
                (next
                  (next
                    (next
                      (next
                        (next
                          (next
                            (next
                              (next
                                (next here (completes completion (λ h. omega (arith, h, one)) refl))
                                (stops refl (unfold complete_accept in on) refl))
                              (closes refl refl))
                            (halts refl refl))
                          (loop_returns (looping_on loops) (inl (unfold stop_context in refl))
                            refl))
                        (loop_restarts refl refl))
                      (loop_leaves refl refl))
                    (joins refl (inr refl) refl))
                  (restarts refl refl))
                (starts refl refl))
              (accepts completion [] works (goes ∙ unstopped) queued refl),
          refl,
          thread ∙ works,
          still ∙ runs,
          two,
        )
