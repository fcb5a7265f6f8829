-- ===== src/Server/Restarts.antt =====
-- What a start that failed leaves behind.
use native.Mathlib.Omega.{arith}
use jsonrpc_for_cpp.Asio.{Acceptors, Failure, Report-cases, broken, done}
use jsonrpc_for_cpp.Json.{JsonLib}
use jsonrpc_for_cpp.Results.{throw, std_exception}
use jsonrpc_for_cpp.Prelude.{true, false, ◌≡◌, inl, inr}
use jsonrpc_for_cpp.Server.{
  Server, start_async, try_enter_running, prepare_acceptor, open_bind_listen, leave_running,
  teardown_acceptor,
}
use jsonrpc_for_cpp.Server.Lifecycle.{stop_context, restart_context, reset_worker}

-- What Boost.Asio documents of an acceptor that is open: opening it again fails, and it stays open
-- until it is closed.
pub record OpenLaws {N : Type 0} (a : Acceptors N) (IsOpen : N → Type 0) : Type 0 where
  pub opens :
      (e : a.Endpoint) (n : N) → (a.open_acceptor e n).0 ≡ done tt → IsOpen (a.open_acceptor e n).1
  pub refuses :
      (e : a.Endpoint) (n : N) → IsOpen n → (f : Failure) × ((a.open_acceptor e n).0 ≡ broken f)
  pub keeps_reuse : (n : N) → IsOpen n → IsOpen (a.set_reuse_address n).1
  pub keeps_bind : (e : a.Endpoint) (n : N) → IsOpen n → IsOpen (a.bind e n).1
  pub keeps_listen : (n : N) → IsOpen n → IsOpen (a.listen n).1

module _ ⦃J : JsonLib⦄ where
  module _ {N : Type 0} (a : Acceptors N) {IsOpen : N → Type 0} (laws : OpenLaws a IsOpen) where
    opened-IsOpen :
        (e : a.Endpoint) (n : N)
        → (a.open_acceptor e n).0 ≡ done tt
        → IsOpen (open_bind_listen a e n).1
    unfolding open_bind_listen
    opened-IsOpen e n h =
        let o = laws.opens e n h in
        let n₁ = (a.open_acceptor e n).1 in
        let n₂ = (a.set_reuse_address n₁).1 in
        let n₃ = (a.bind e n₂).1 in
        let p = laws.keeps_reuse n₁ o in
        let q = laws.keeps_bind e n₂ p in
        let r = laws.keeps_listen n₃ q in
        elim (Report-cases (a.set_reuse_address n₁).0) [
          | inr (f, k) ↦ ground arith
          | inl (u, k) ↦ elim (Report-cases (a.bind e n₂).0) [
            | inr (f, l) ↦ ground arith
            | inl (v, l) ↦ elim (Report-cases (a.listen n₃).0) [
              | inr (f, m) ↦ ground arith
              | inl (w, m) ↦ ground arith
            ]
          ]
        ]

    module _ {W : Type 0} where
      -- `stop` from one end to the other, without a worker thread.
      abbrev pub stopped_again : Server W a.Endpoint N → Server W a.Endpoint N
      stopped_again s =
          restart_context (reset_worker (stop_context (teardown_acceptor a (leave_running s))))

      still_throws :
          (s : Server W a.Endpoint N)
          → s.running ≡ false
          → s.acceptor_ready ≡ false
          → IsOpen s.acceptor
          → (f : Failure) × ((start_async a s).0 ≡ throw (std_exception f.what))
      unfolding start_async try_enter_running prepare_acceptor open_bind_listen
      still_throws s off unready h =
          let (f, e) = laws.refuses s.endpoint s.acceptor h in (f, ground arith)

      stopped_unready :
          (s : Server W a.Endpoint N) (f : Failure)
          → s.running ≡ false
          → s.acceptor_ready ≡ false
          → (open_bind_listen a s.endpoint s.acceptor).0 ≡ broken f
          → ((stopped_again (start_async a s).1).running ≡ false)
            × ((stopped_again (start_async a s).1).acceptor_ready ≡ false)
      unfolding start_async try_enter_running prepare_acceptor leave_running teardown_acceptor
          stop_context restart_context reset_worker
      stopped_unready s f off unready breaks = ground arith

      -- A `start` whose acceptor opens, but cannot be bound or listen, throws, and leaves the server
      -- marked as running and its acceptor open. After a `stop` another `start` throws as well,
      -- also where the system has meanwhile changed in any way that leaves the acceptor open.
      pub start_async_stuck :
          (s : Server W a.Endpoint N) (f : Failure) (n : N)
          → s.running ≡ false
          → s.acceptor_ready ≡ false
          → (a.open_acceptor s.endpoint s.acceptor).0 ≡ done tt
          → (open_bind_listen a s.endpoint s.acceptor).0 ≡ broken f
          → IsOpen n
          → ((start_async a s).0 ≡ throw (std_exception f.what))
            × ((start_async a s).1.running ≡ true)
            × IsOpen (start_async a s).1.acceptor
            × ((g : Failure) × ((start_async a
                    (record (stopped_again (start_async a s).1) { acceptor = n })).0
                  ≡ throw (std_exception g.what)))
      start_async_stuck s f n off unready opens breaks h =
          let (not_running, not_ready) = stopped_unready s f off unready breaks in
          let o = opened-IsOpen s.endpoint s.acceptor opens in
          (
            unfold start_async try_enter_running prepare_acceptor in ground arith,
            unfold start_async try_enter_running prepare_acceptor in ground arith,
            unfold start_async try_enter_running prepare_acceptor in ground arith,
            still_throws (record (stopped_again (start_async a s).1) { acceptor = n }) not_running
                not_ready h,
          )
