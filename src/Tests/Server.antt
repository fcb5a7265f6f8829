-- ===== src/Tests/Server.antt =====
-- A server over an acceptor that knows whether it is open and whether its port is free.
use jsonrpc_for_cpp.Server.Lifecycle.Doubles.{restart_doubles}
use jsonrpc_for_cpp.Server.Lifecycle.Outside.{stop_context_terminates}
use jsonrpc_for_cpp.Prelude.{
  [], Bool, true, false, String, ℕ, ◌≡◌, refl, if◌then◌else◌, inl, ◌<◌, ◌≤◌,
}
use native.Mathlib.Omega.{arith}
use jsonrpc_for_cpp.Asio.{Acceptors, Failure, done, broken}
use jsonrpc_for_cpp.Registry.{new_registry}
use jsonrpc_for_cpp.Results.{ok, throw, std_exception}
use jsonrpc_for_cpp.Server.{
  Server, absent, looping, returned, new_server, prepare_acceptor, open_bind_listen, start_async,
  enter_run, try_enter_running, do_accept, replace_worker, on_accept, leave_running,
  teardown_acceptor, ended, connection,
}
use jsonrpc_for_cpp.Server.Lifecycle.{
  System, Reach, free, told, exchanged, torn_down, handle_accept, stop_context, starts, accepts,
  stops, closes, halts, loop_returns, here, next, complete_accept, completes,
}
use jsonrpc_for_cpp.Server.Lifecycle.Sound.{IsSound, Reach-new_server-IsSound, IsServing}
use jsonrpc_for_cpp.Server.Lifecycle.Stops.{CanStop, stop-CanStop}
use jsonrpc_for_cpp.Server.Lifecycle.Ends.{left, stop-left}
use jsonrpc_for_cpp.Server.Blocking.{BlockingSystem, BlockingReach, stop_leaves_loop}
use jsonrpc_for_cpp.Server.Restarts.{OpenLaws, stopped_again, start_async_stuck}
use jsonrpc_for_cpp.Tests.Sample.{sample_json}

pub record Port : Type 0 where
  pub is_open : Bool
  pub is_free : Bool

abbrev already_open : Failure
already_open = record { message = "Already open"; what = "open: Already open" }

abbrev in_use : Failure
in_use = record { message = "Address already in use"; what = "bind: Address already in use" }

abbrev pub ports : Acceptors Port
ports = record {
  Endpoint = String × ℕ;
  make_endpoint = λ address port. done (address, port);
  open_acceptor =
      λ e n. if n.is_open then (broken already_open, n) else (done tt, record n { is_open = true });
  set_reuse_address = λ n. (done tt, n);
  bind = λ e n. if n.is_free then (done tt, n) else (broken in_use, n);
  listen = λ n. (done tt, n);
  close = λ n. record n { is_open = false };
}

abbrev IsOpen : Port → Type 0
IsOpen n = n.is_open ≡ true

ports_laws : OpenLaws ports IsOpen
ports_laws = record {
  opens = λ e n h. ground arith;
  refuses = λ e n h. (already_open, ground arith);
  keeps_reuse = λ n h. h;
  keeps_bind = λ e n h. ground arith;
  keeps_listen = λ n h. h;
}

-- A server as its constructor leaves it.
abbrev pub made : Server ℕ (String × ℕ) Port
made = record {
  acceptor = record { is_open = true; is_free = true };
  registry = new_registry 4;
  worker_thread = absent;
  running = false;
  endpoint = ("127.0.0.1", 8080);
  acceptor_ready = true;
  waiting = 0;
  completed = [];
  refused = 0;
  aborted = 0;
  sessions = 0;
  stopped = false;
  terminated = false;
  logger = false;
  logs = [];
}

makes : new_server ports 4 "127.0.0.1" 8080 (record { is_open = false; is_free = true }) ≡ ok made
unfolding new_server prepare_acceptor open_bind_listen
makes = refl

abbrev At : Type 0
At = System ℕ (String × ℕ) Port

abbrev began : At
began = record { owner = free; server = made }

-- It starts, an accept completes and its handler runs, another completes, and it is stopped up to
-- the context.
abbrev serving : At
serving = record { owner = free; server = (start_async ports made).1 }

abbrev busy : At
busy = record {
  owner = free;
  server =
      complete_accept connection
        (handle_accept connection [] (complete_accept connection serving.server));
}

abbrev closing : At
closing = record { owner = exchanged; server = leave_running busy.server }

abbrev closed : At
closed = record { owner = torn_down; server = teardown_acceptor ports closing.server }

abbrev halted : At
halted = record { owner = told; server = stop_context closed.server }

steps : Reach ports began halted
unfolding start_async try_enter_running prepare_acceptor do_accept replace_worker handle_accept
    on_accept complete_accept
steps =
    next
      (next
        (next
          (next
            (next
              (next (next here (starts refl refl)) (completes connection (λ h. ground arith) refl))
              (accepts connection [] refl refl refl refl))
            (completes connection (λ h. ground arith) refl))
          (stops refl refl refl))
        (closes refl refl))
      (halts refl refl)

Reach-new_server-IsSound_example : IsSound halted
Reach-new_server-IsSound_example =
    Reach-new_server-IsSound ports 4 "127.0.0.1" 8080 (record { is_open = false; is_free = true })
      made makes steps

stop-CanStop_example : CanStop ports halted
stop-CanStop_example =
    stop-CanStop ports 4 "127.0.0.1" 8080 (record { is_open = false; is_free = true }) made makes
      steps (λ h. ground arith)

abbrev left_loop : At
left_loop = record {
  owner = told;
  server = record (stop_context halted.server) { worker_thread = returned };
}

stop-left_example :
    (left left_loop.owner left_loop.server.worker_thread
      < left halted.owner halted.server.worker_thread)
    × (left halted.owner halted.server.worker_thread ≤ 5)
stop-left_example =
    stop-left ports 4 "127.0.0.1" 8080 (record { is_open = false; is_free = true }) made makes steps
      (inl refl) (loop_returns loops (inl stopped) refl)
  where
    loops : halted.server.worker_thread ≡ looping
    loops =
        unfold start_async try_enter_running prepare_acceptor do_accept replace_worker handle_accept
          complete_accept on_accept leave_running teardown_acceptor stop_context in
        refl

    stopped : halted.server.stopped ≡ true
    stopped = unfold stop_context in refl

stop_context_terminates_example :
    (t : At) × Reach ports (record serving { server = stop_context serving.server }) t
    × (t.owner ≡ free)
    × (t.server.running ≡ false)
    × (t.server.worker_thread ≡ ended)
    × ((start_async ports t.server).0 ≡ ok tt)
    × ((start_async ports t.server).1.terminated ≡ true)
stop_context_terminates_example = stop_context_terminates ports serving refl serves
  where
    serves : IsServing serving.server
    serves =
        unfold start_async try_enter_running prepare_acceptor do_accept replace_worker in
        (refl, refl, inl (λ h. ground arith), refl)

restart_doubles_example :
    (t : At) × Reach ports (record { owner = free; server = serving.server }) t
    × (t.owner ≡ free)
    × (t.server.worker_thread ≡ looping)
    × (t.server.running ≡ true)
    × (t.server.waiting ≡ 2)
restart_doubles_example =
    restart_doubles ports connection serving.server
      (unfold start_async try_enter_running prepare_acceptor do_accept replace_worker in refl)
      (unfold start_async try_enter_running prepare_acceptor do_accept replace_worker in refl)
      (unfold start_async try_enter_running prepare_acceptor do_accept replace_worker in refl)
      (unfold start_async try_enter_running prepare_acceptor do_accept replace_worker in refl)
      (unfold start_async try_enter_running prepare_acceptor do_accept replace_worker in refl)
      (unfold start_async try_enter_running prepare_acceptor do_accept replace_worker
          open_bind_listen in
        refl)

-- A server whose acceptor was closed, and whose port was then taken by another process.
abbrev taken : Server ℕ (String × ℕ) Port
taken = record made {
  acceptor = record { is_open = false; is_free = false };
  acceptor_ready = false;
}

start_async_stuck_example :
    ((start_async ports taken).0 ≡ throw (std_exception "bind: Address already in use"))
    × ((start_async ports taken).1.running ≡ true)
    × ((start_async ports taken).1.acceptor.is_open ≡ true)
    × ((g : Failure) × ((start_async ports
            (record (stopped_again ports ports_laws (start_async ports taken).1) {
              acceptor = record { is_open = true; is_free = true };
            })).0
          ≡ throw (std_exception g.what)))
start_async_stuck_example =
    start_async_stuck ports ports_laws taken in_use (record { is_open = true; is_free = true }) refl
      refl refl breaks refl
  where
    breaks : (open_bind_listen ports taken.endpoint taken.acceptor).0 ≡ broken in_use
    breaks = unfold open_bind_listen in refl

abbrev in_run : BlockingSystem ℕ (String × ℕ) Port
in_run = record { owner = free; caller = looping; server = (enter_run ports made).1 }

stop_leaves_loop_example :
    (t : BlockingSystem ℕ (String × ℕ) Port) × BlockingReach ports in_run t
    × (t.owner ≡ free)
    × (t.caller ≡ looping)
    × (t.server.running ≡ false)
    × (t.server.stopped ≡ false)
    × (t.server.sessions ≡ in_run.server.sessions)
stop_leaves_loop_example = stop_leaves_loop ports in_run refl refl on alone
  where
    on : in_run.server.running ≡ true
    on = unfold enter_run try_enter_running prepare_acceptor do_accept in refl

    alone : in_run.server.worker_thread ≡ absent
    alone = unfold enter_run try_enter_running prepare_acceptor do_accept in refl
