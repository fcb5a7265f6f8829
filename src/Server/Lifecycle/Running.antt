-- ===== src/Server/Lifecycle/Running.antt =====
-- That `start` marks the server as running, whether or not it throws.
use jsonrpc_for_cpp.Asio.{Acceptors, Report-cases}
use jsonrpc_for_cpp.Json.{JsonLib}
use jsonrpc_for_cpp.Prelude.{true, ◌≡◌, refl, Bool-cases, inl, inr, arith}
use jsonrpc_for_cpp.Results.{Result-cases}
use jsonrpc_for_cpp.Server.{
  Server, Thread, absent, looping, returned, restarted, ended, start_async, do_accept,
  try_enter_running, prepare_acceptor, replace_worker, open_bind_listen,
}

module _ ⦃J : JsonLib⦄ where
  module _ {W N : Type 0} (a : Acceptors N) where
    prepare_acceptor-running :
        (s : Server W a.Endpoint N) → (prepare_acceptor a s).1.running ≡ s.running
    unfolding prepare_acceptor
    prepare_acceptor-running s = elim (Bool-cases s.acceptor_ready) [
      | inl ready ↦ ground arith
      | inr closed ↦ elim (Report-cases (open_bind_listen a s.endpoint s.acceptor).0) [
        | inl (u, h) ↦ ground arith
        | inr (f, h) ↦ ground arith
      ]
    ]

    replace_worker-running :
        (t : Thread) (s : Server W a.Endpoint N) → (replace_worker t s).running ≡ s.running
    unfolding replace_worker
    replace_worker-running absent s = refl
    replace_worker-running looping s = refl
    replace_worker-running returned s = refl
    replace_worker-running restarted s = refl
    replace_worker-running ended s = refl

    pub start_async-running : (s : Server W a.Endpoint N) → (start_async a s).1.running ≡ true
    unfolding start_async try_enter_running do_accept
    start_async-running s =
        let entered : Server W a.Endpoint N = record s { running = true } in
        let prepared = prepare_acceptor a entered in
        elim (Bool-cases s.running) [
          | inl on ↦ ground arith
          | inr off ↦ elim (Result-cases prepared.0) [
            | inr (x, h) ↦ ground (arith, prepare_acceptor-running entered)
            | inl (u, h) ↦ ground (
              arith,
              prepare_acceptor-running entered,
              replace_worker-running prepared.1.worker_thread (do_accept prepared.1),
            )
          ]
        ]
