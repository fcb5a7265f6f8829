-- ===== src/Server/Lifecycle/Sound.antt =====
-- What holds of a server in every state that the owner and the worker thread can reach.
use native.Mathlib.Omega.{arith}
use jsonrpc_for_cpp.Asio.{Acceptors, Report-cases}
use jsonrpc_for_cpp.Json.{JsonLib}
use jsonrpc_for_cpp.Results.{ok}
use jsonrpc_for_cpp.Prelude.{
  Bool-cases, true, false, String, ℕ, ◌≡◌, ◌≢◌, ◌⊎◌, inl, inr, subst, ◌∙◌, List, [], ◌++◌, ◌∷◌,
}
use jsonrpc_for_cpp.Server.{
  Server, absent, looping, returned, restarted, ended, on_accept, leave_running, start_async,
  teardown_acceptor, new_server, open_bind_listen, log, do_accept, try_enter_running,
  prepare_acceptor, replace_worker, Completion, failure, connection,
}
use jsonrpc_for_cpp.Server.Lifecycle.{
  Owner, System, Step, Reach, free, exchanged, torn_down, told, joined, starts, stops, closes,
  refuses, halts, joins, restarts, accepts, aborts, session_ends, loop_returns, loop_restarts,
  loop_leaves, handle_accept, handle_aborted, stop_context, restart_context, reset_worker, here,
  next, IsOutOfWork, complete_accept, handle_refused, completes,
}

snoc_ne {ℓ} : {A : Type ℓ} (xs : List A) (x : A) → xs ++ x ∷ [] ≢ []
snoc_ne [] x h = ground arith
snoc_ne (y ∷ xs) x h = ground arith

module _ ⦃J : JsonLib⦄ where
  module _ {W E N : Type 0} where
    -- No thread, and nothing that a thread would serve.
    abbrev pub IsIdle : Server W E N → Type 0
    IsIdle s = (s.worker_thread ≡ absent) × (s.waiting ≡ 0) × (s.stopped ≡ false)

    -- An accept waits, or the handler of one is queued that will ask for another.
    abbrev pub HasAccept : Server W E N → Type 0
    HasAccept s = (s.waiting ≢ 0) ⊎ ((s.completed ≢ []) ⊎ (s.refused ≢ 0))

    -- The worker thread is in the loop of a context that is not stopped and has an accept of an
    -- open acceptor.
    abbrev pub IsServing : Server W E N → Type 0
    IsServing s =
        (s.worker_thread ≡ looping) × (s.acceptor_ready ≡ true) × HasAccept s × (s.stopped ≡ false)

    abbrev pub IsClosed : Server W E N → Type 0
    IsClosed s = (s.running ≡ false) × (s.acceptor_ready ≡ false) × (s.waiting ≡ 0)

    -- At each point of the owner: an idle or a serving server, the second marked as running;
    -- within `stop` a server that is not running, after the closing of the acceptor a closed one;
    -- once the context is stopped, a worker thread that has left the loop or is bound to; and
    -- after the joining no thread.
    abbrev pub Sound : Owner → Server W E N → Type 0
    Sound free s = IsIdle s ⊎ (IsServing s × (s.running ≡ true))
    Sound exchanged s = (s.running ≡ false) × (IsIdle s ⊎ IsServing s)
    Sound torn_down s = IsClosed s
    Sound told s = IsClosed s × ((s.stopped ≡ true) ⊎ (s.worker_thread ≢ looping))
    Sound joined s = IsClosed s × (s.worker_thread ≡ absent)

    -- No thread was destroyed before it was joined, and the point of the owner is sound.
    pub record IsSound (s : System W E N) : Type 0 where
      pub alive : s.server.terminated ≡ false
      pub sound : Sound s.owner s.server

    accepts-Sound :
        (o : Owner) (completion : Completion) (rest : List Completion) (s : Server W E N)
        → s.worker_thread ≡ looping
        → Sound o s
        → Sound o (handle_accept completion rest s)
          × ((handle_accept completion rest s).terminated ≡ s.terminated)
    unfolding handle_accept on_accept do_accept log
    accepts-Sound free connection rest s l c = ground arith
    accepts-Sound exchanged connection rest s l c = ground arith
    accepts-Sound torn_down connection rest s l c = ground arith
    accepts-Sound told connection rest s l c = ground arith
    accepts-Sound joined connection rest s l c = ground arith
    accepts-Sound free (failure m) rest s l c = ground arith
    accepts-Sound exchanged (failure m) rest s l c = ground arith
    accepts-Sound torn_down (failure m) rest s l c = ground arith
    accepts-Sound told (failure m) rest s l c = ground arith
    accepts-Sound joined (failure m) rest s l c = ground arith

    refuses-Sound :
        (o : Owner) (message : String) (s : Server W E N)
        → s.worker_thread ≡ looping
        → Sound o s
        → Sound o (handle_refused message s)
          × ((handle_refused message s).terminated ≡ s.terminated)
    unfolding handle_refused on_accept do_accept log
    refuses-Sound free message s l c = ground arith
    refuses-Sound exchanged message s l c = ground arith
    refuses-Sound torn_down message s l c = ground arith
    refuses-Sound told message s l c = ground arith
    refuses-Sound joined message s l c = ground arith

    completes-Sound :
        (o : Owner) (completion : Completion) (s : Server W E N)
        → s.waiting ≢ 0
        → Sound o s
        → Sound o (complete_accept completion s)
    unfolding complete_accept
    completes-Sound free completion s w (inl (gone, idle, runs)) = absurd (w idle)
    completes-Sound free completion s w (inr ((l, ready, has, runs), on)) =
        inr ((l, ready, inr (inl (snoc_ne s.completed completion)), runs), on)
    completes-Sound exchanged completion s w (off, inl (gone, idle, runs)) = absurd (w idle)
    completes-Sound exchanged completion s w (off, inr (l, ready, has, runs)) =
        (off, inr (l, ready, inr (inl (snoc_ne s.completed completion)), runs))
    completes-Sound torn_down completion s w (off, closed, idle) = absurd (w idle)
    completes-Sound told completion s w ((off, closed, idle), over) = absurd (w idle)
    completes-Sound joined completion s w ((off, closed, idle), gone) = absurd (w idle)

    aborts-Sound : (o : Owner) (s : Server W E N) → Sound o s → Sound o (handle_aborted s)
    unfolding handle_aborted on_accept
    aborts-Sound free s c = c
    aborts-Sound exchanged s c = c
    aborts-Sound torn_down s c = c
    aborts-Sound told s c = c
    aborts-Sound joined s c = c

    returns-Sound :
        (o : Owner) (s : Server W E N)
        → s.worker_thread ≡ looping
        → (s.stopped ≡ true) ⊎ IsOutOfWork s
        → Sound o s
        → Sound o (record (stop_context s) { worker_thread = returned })
    unfolding stop_context
    returns-Sound free s h w c = ground arith
    returns-Sound exchanged s h w c = ground arith
    returns-Sound torn_down s h w c = ground arith
    returns-Sound told s h w c = ground arith
    returns-Sound joined s h w c = ground arith

    session_ends-Sound :
        (o : Owner) (k : ℕ) (s : Server W E N) → Sound o s → Sound o (record s { sessions = k })
    session_ends-Sound free k s c = c
    session_ends-Sound exchanged k s c = c
    session_ends-Sound torn_down k s c = c
    session_ends-Sound told k s c = c
    session_ends-Sound joined k s c = c

    loop_restarts-Sound :
        (o : Owner) (s : Server W E N)
        → s.worker_thread ≡ returned
        → Sound o s
        → Sound o (record (restart_context s) { worker_thread = restarted })
    unfolding restart_context
    loop_restarts-Sound free s h c = ground arith
    loop_restarts-Sound exchanged s h c = ground arith
    loop_restarts-Sound torn_down s h c = ground arith
    loop_restarts-Sound told s h c = ground arith
    loop_restarts-Sound joined s h c = ground arith

    loop_leaves-Sound :
        (o : Owner) (s : Server W E N)
        → s.worker_thread ≡ restarted
        → Sound o s
        → Sound o (record (leave_running s) { worker_thread = ended })
    unfolding leave_running
    loop_leaves-Sound free s h c = ground arith
    loop_leaves-Sound exchanged s h c = ground arith
    loop_leaves-Sound torn_down s h c = ground arith
    loop_leaves-Sound told s h c = ground arith
    loop_leaves-Sound joined s h c = ground arith

  module _ {W N : Type 0} (a : Acceptors N) where
    start_async-Sound :
        (s : Server W a.Endpoint N)
        → Sound free s
        → s.terminated ≡ false
        → Sound free (start_async a s).1 × ((start_async a s).1.terminated ≡ false)
    unfolding start_async try_enter_running prepare_acceptor do_accept replace_worker
    start_async-Sound s c h = elim (Bool-cases s.running) [
      | inl on ↦ ground arith
      | inr off ↦ elim (Bool-cases s.acceptor_ready) [
        | inl ready ↦ ground arith
        | inr unready ↦ elim (Report-cases (open_bind_listen a s.endpoint s.acceptor).0) [
          | inl (u, e) ↦ ground arith
          | inr (f, e) ↦ ground arith
        ]
      ]
    ]

    module _ {s t : System W a.Endpoint N} where
      pub Step-IsSound : Step a s t → IsSound s → IsSound t
      unfolding leave_running teardown_acceptor stop_context restart_context reset_worker
      Step-IsSound (starts o e) c =
          let (sound, alive) =
            start_async-Sound s.server (subst (λ z. Sound z s.server) o c.sound) c.alive in
          rw e (record { alive = alive; sound = rw o sound })
      Step-IsSound (stops o r e) c =
          let d = (subst (λ z. Sound z s.server) o c.sound) in
          rw e (record { alive = c.alive; sound = ground arith })
      Step-IsSound (closes o e) c =
          let d = (subst (λ z. Sound z s.server) o c.sound) in
          rw e (record { alive = ground arith; sound = ground arith })
      Step-IsSound (halts o e) c =
          let d = (subst (λ z. Sound z s.server) o c.sound) in
          rw e (record { alive = c.alive; sound = ground arith })
      Step-IsSound (joins o gone e) c =
          let d = (subst (λ z. Sound z s.server) o c.sound) in
          rw e (record { alive = c.alive; sound = ground arith })
      Step-IsSound (restarts o e) c =
          let d = (subst (λ z. Sound z s.server) o c.sound) in
          rw e (record { alive = c.alive; sound = ground arith })
      Step-IsSound (completes completion w e) c = rw e (record {
        alive = unfold complete_accept in c.alive;
        sound = completes-Sound s.owner completion s.server w c.sound;
      })
      Step-IsSound (accepts completion rest l r w e) c =
          let (sound, same) = accepts-Sound s.owner completion rest s.server l c.sound in
          rw e (record { alive = same ∙ c.alive; sound = sound })
      Step-IsSound (refuses message l r w e) c =
          let (sound, same) = refuses-Sound s.owner message s.server l c.sound in
          rw e (record { alive = same ∙ c.alive; sound = sound })
      Step-IsSound (aborts l r w e) c = rw e (record {
        alive = unfold handle_aborted on_accept in c.alive;
        sound = aborts-Sound s.owner s.server c.sound;
      })
      Step-IsSound (session_ends k l r w e) c =
          rw e (record { alive = c.alive; sound = session_ends-Sound s.owner k s.server c.sound })
      Step-IsSound (loop_returns l w e) c =
          rw e (record { alive = c.alive; sound = returns-Sound s.owner s.server l w c.sound })
      Step-IsSound (loop_restarts l e) c =
          rw e (record { alive = c.alive; sound = loop_restarts-Sound s.owner s.server l c.sound })
      Step-IsSound (loop_leaves l e) c =
          rw e (record { alive = c.alive; sound = loop_leaves-Sound s.owner s.server l c.sound })

    pub Reach-IsSound : {s t : System W a.Endpoint N} → IsSound s → Reach a s t → IsSound t
    Reach-IsSound c here = c
    Reach-IsSound c (next run step) = Step-IsSound step (Reach-IsSound c run)

    pub new_server-IsSound :
        (cores : ℕ) (address : String) (port : ℕ) (n : N) (s : Server W a.Endpoint N)
        → new_server a cores address port n ≡ ok s
        → IsSound (record { owner = free; server = s })
    unfolding new_server prepare_acceptor
    new_server-IsSound cores address port n s h =
        elim (Report-cases (a.make_endpoint address port)) [
          | inr (f, e) ↦ absurd (ground arith)
          | inl (endpoint, e) ↦ elim (Report-cases (open_bind_listen a endpoint n).0) [
            | inl (u, k) ↦ ground arith
            | inr (f, k) ↦ absurd (ground arith)
          ]
        ]

    -- Whatever the owner and the worker thread have done since the constructor returned, and in
    -- whatever order: no thread was destroyed before it was joined; outside of `stop` a server
    -- either has no worker thread and no accept that waits, or its worker thread is in the loop of
    -- a context that is not stopped, it is marked as running, and on its open acceptor an accept
    -- waits, or the handler of one is queued that will ask for another; and in `stop` it is not
    -- running, after the closing of the acceptor no accept waits on it, once the context was told
    -- the worker thread has left the loop or the context is stopped, and after the joining there is
    -- no thread.
    pub Reach-new_server-IsSound :
        (cores : ℕ) (address : String) (port : ℕ) (n : N) (s : Server W a.Endpoint N)
        {t : System W a.Endpoint N}
        → new_server a cores address port n ≡ ok s
        → Reach a (record { owner = free; server = s }) t
        → IsSound t
    Reach-new_server-IsSound cores address port n s h run =
        Reach-IsSound (new_server-IsSound cores address port n s h) run
