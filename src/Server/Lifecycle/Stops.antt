-- ===== src/Server/Lifecycle/Stops.antt =====
-- That `stop` ends: the joining of the thread does not wait for ever.
use native.Mathlib.Omega.{arith}
use jsonrpc_for_cpp.Asio.{Acceptors}
use jsonrpc_for_cpp.Json.{JsonLib}
use jsonrpc_for_cpp.Results.{ok}
use jsonrpc_for_cpp.Prelude.{String, false, ℕ, ◌≡◌, ◌≢◌, ◌⊎◌, inl, inr, refl, subst}
use jsonrpc_for_cpp.Server.{Server, Thread, absent, looping, returned, restarted, ended, new_server}
use jsonrpc_for_cpp.Server.Lifecycle.{
  Owner, System, Step, Reach, free, exchanged, torn_down, told, joined, closes, halts, joins,
  restarts, loop_returns, loop_restarts, loop_leaves, restart_context, here, next,
}
use jsonrpc_for_cpp.Server.Lifecycle.Sound.{IsSound, Sound, Step-IsSound, Reach-new_server-IsSound}

Thread-cases :
    (x : Thread)
    → ((x ≡ absent) ⊎ (x ≡ ended)) ⊎ ((x ≡ restarted) ⊎ ((x ≡ returned) ⊎ (x ≡ looping)))
Thread-cases absent = inl (inl refl)
Thread-cases ended = inl (inr refl)
Thread-cases restarted = inr (inl refl)
Thread-cases returned = inr (inr (inl refl))
Thread-cases looping = inr (inr (inr refl))

Owner-cases :
    (o : Owner) → (o ≡ free) ⊎ ((o ≡ exchanged) ⊎ ((o ≡ torn_down) ⊎ ((o ≡ told) ⊎ (o ≡ joined))))
Owner-cases free = inl refl
Owner-cases exchanged = inr (inl refl)
Owner-cases torn_down = inr (inr (inl refl))
Owner-cases told = inr (inr (inr (inl refl)))
Owner-cases joined = inr (inr (inr (inr refl)))

module _ ⦃J : JsonLib⦄ where
  module _ {W N : Type 0} (a : Acceptors N) where
    -- The server after `stop`: no thread, not running, its acceptor closed, nothing waiting, and a
    -- context that can run again.
    pub record IsStopped (s : System W a.Endpoint N) : Type 0 where
      pub returned_to_owner : s.owner ≡ free
      pub no_thread : s.server.worker_thread ≡ absent
      pub not_running : s.server.running ≡ false
      pub not_ready : s.server.acceptor_ready ≡ false
      pub nothing_waits : s.server.waiting ≡ 0
      pub can_run : s.server.stopped ≡ false

    -- Some schedule goes on from the state to a stopped server.
    abbrev pub CanStop : System W a.Endpoint N → Type 0
    CanStop s = (t : System W a.Endpoint N) × Reach a s t × IsStopped t

    after : {s t : System W a.Endpoint N} → Step a s t → CanStop t → CanStop s
    after {s} step (u, run, h) = (u, first step run, h)
      where
        first : {t u : System W a.Endpoint N} → Step a s t → Reach a t u → Reach a s u
        first step here = next here step
        first step (next run last) = next (first step run) last

    joined-CanStop : (s : System W a.Endpoint N) → s.owner ≡ joined → IsSound s → CanStop s
    unfolding restart_context
    joined-CanStop s o c =
        let d = subst (λ z. Sound z s.server) o c.sound in
        after (restarts o refl) (
          record { owner = free; server = restart_context s.server },
          here,
          record {
            returned_to_owner = refl;
            no_thread = ground arith;
            not_running = ground arith;
            not_ready = ground arith;
            nothing_waits = ground arith;
            can_run = refl;
          },
        )

    gone-CanStop :
        (s : System W a.Endpoint N)
        → s.owner ≡ told
        → (s.server.worker_thread ≡ absent) ⊎ (s.server.worker_thread ≡ ended)
        → IsSound s
        → CanStop s
    gone-CanStop s o gone c =
        let step = joins o gone refl in after step (joined-CanStop _ refl (Step-IsSound a step c))

    restarted-CanStop :
        (s : System W a.Endpoint N)
        → s.owner ≡ told
        → s.server.worker_thread ≡ restarted
        → IsSound s
        → CanStop s
    restarted-CanStop s o l c =
        let step = loop_leaves l refl in
        after step (gone-CanStop _ o (inr refl) (Step-IsSound a step c))

    returned-CanStop :
        (s : System W a.Endpoint N)
        → s.owner ≡ told
        → s.server.worker_thread ≡ returned
        → IsSound s
        → CanStop s
    returned-CanStop s o l c =
        let step = loop_restarts l refl in
        after step (restarted-CanStop _ o refl (Step-IsSound a step c))

    told-CanStop : (s : System W a.Endpoint N) → s.owner ≡ told → IsSound s → CanStop s
    told-CanStop s o c = elim (Thread-cases s.server.worker_thread) [
      | inl gone ↦ gone-CanStop s o gone c
      | inr (inl l) ↦ restarted-CanStop s o l c
      | inr (inr (inl l)) ↦ returned-CanStop s o l c
      | inr (inr (inr l)) ↦
          (let d = subst (λ z. Sound z s.server) o c.sound in
            let step = loop_returns l (inl (ground arith)) refl in
            after step (returned-CanStop _ o refl (Step-IsSound a step c)))
    ]

    torn_down-CanStop : (s : System W a.Endpoint N) → s.owner ≡ torn_down → IsSound s → CanStop s
    torn_down-CanStop s o c =
        let step = halts o refl in after step (told-CanStop _ refl (Step-IsSound a step c))

    exchanged-CanStop : (s : System W a.Endpoint N) → s.owner ≡ exchanged → IsSound s → CanStop s
    exchanged-CanStop s o c =
        let step = closes o refl in after step (torn_down-CanStop _ refl (Step-IsSound a step c))

    module _ (cores : ℕ) (address : String) (port : ℕ) (n : N) (s : Server W a.Endpoint N)
        {t : System W a.Endpoint N} where
      -- From every state that the owner and the worker thread reach within `stop`, after the
      -- constructor returned, some schedule ends `stop`: with no worker thread, not running, the
      -- acceptor closed, no accept waiting, and a context that can run again.
      pub stop-CanStop :
          new_server a cores address port n ≡ ok s
          → Reach a (record { owner = free; server = s }) t
          → t.owner ≢ free
          → CanStop t
      stop-CanStop made run busy =
          let c = Reach-new_server-IsSound a cores address port n s made run in
          elim (Owner-cases t.owner) [
            | inl o ↦ absurd (busy o)
            | inr (inl o) ↦ exchanged-CanStop t o c
            | inr (inr (inl o)) ↦ torn_down-CanStop t o c
            | inr (inr (inr (inl o))) ↦ told-CanStop t o c
            | inr (inr (inr (inr o))) ↦ joined-CanStop t o c
          ]
