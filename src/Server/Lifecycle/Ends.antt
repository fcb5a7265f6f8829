-- ===== src/Server/Lifecycle/Ends.antt =====
-- That `stop` ends in at most five steps of any schedule once the context was told.
use native.Mathlib.Omega.{arith}
use jsonrpc_for_cpp.Asio.{Acceptors}
use jsonrpc_for_cpp.Json.{JsonLib}
use jsonrpc_for_cpp.Results.{ok}
use jsonrpc_for_cpp.Prelude.{String, false, ℕ, ◌<◌, ◌≤◌, ◌≡◌, ◌⊎◌, inl, inr, subst}
use jsonrpc_for_cpp.Server.{Server, Thread, absent, looping, returned, restarted, ended, new_server}
use jsonrpc_for_cpp.Server.Lifecycle.{
  Owner, System, Step, Reach, free, exchanged, torn_down, told, joined, starts, stops, completes,
  accepts, refuses, aborts, session_ends, closes, halts, joins, restarts, loop_returns,
  loop_restarts, loop_leaves, reset_worker,
}
use jsonrpc_for_cpp.Server.Lifecycle.Sound.{IsSound, Sound, Reach-new_server-IsSound}

-- The steps that `stop` and the worker thread still have to take once the context was told.
abbrev pub left : Owner → Thread → ℕ
left told looping = 5
left told returned = 4
left told restarted = 3
left told _ = 2
left joined _ = 1
left _ _ = 0

left_bounded : (o : Owner) (x : Thread) → left o x ≤ 5
left_bounded free x = omega arith
left_bounded exchanged x = omega arith
left_bounded torn_down x = omega arith
left_bounded joined x = omega arith
left_bounded told absent = omega arith
left_bounded told looping = omega arith
left_bounded told returned = omega arith
left_bounded told restarted = omega arith
left_bounded told ended = omega arith

module _ ⦃J : JsonLib⦄ where
  module _ {W N : Type 0} (a : Acceptors N) where
    joined_alone :
        {s : System W a.Endpoint N} → IsSound s → s.owner ≡ joined → s.server.worker_thread ≡ absent
    joined_alone {s} c o = (subst (λ z. Sound z s.server) o c.sound).1

    -- The worker thread is not in the loop of a context that was told, unless it is stopped.
    looping_unstopped :
        {s : System W a.Endpoint N}
        → IsSound s
        → (s.owner ≡ told) ⊎ (s.owner ≡ joined)
        → s.server.worker_thread ≡ looping
        → s.server.stopped ≡ false
        → ⊥
    looping_unstopped {s} c (inl o) l r =
        let d = subst (λ z. Sound z s.server) o c.sound in ground arith
    looping_unstopped {s} c (inr o) l r = ground (arith, joined_alone c o)

    told_idle :
        {s : System W a.Endpoint N}
        → IsSound s
        → (s.owner ≡ told) ⊎ (s.owner ≡ joined)
        → s.server.waiting ≡ 0
    told_idle {s} c (inl o) =
        let ((off, closed, idle), over) = subst (λ z. Sound z s.server) o c.sound in idle
    told_idle {s} c (inr o) =
        let ((off, closed, idle), gone) = subst (λ z. Sound z s.server) o c.sound in idle

    Step-left :
        {s : System W a.Endpoint N} (t : System W a.Endpoint N)
        → IsSound s
        → (s.owner ≡ told) ⊎ (s.owner ≡ joined)
        → Step a s t
        → left t.owner t.server.worker_thread < left s.owner s.server.worker_thread
    unfolding reset_worker
    Step-left {s} t c o (starts p e) = ground arith
    Step-left {s} t c o (stops p r e) = ground arith
    Step-left {s} t c o (closes p e) = ground arith
    Step-left {s} t c o (halts p e) = ground arith
    Step-left {s} t c o (restarts p e) = ground arith
    Step-left {s} t c o (joins p gone e) = ground arith
    Step-left {s} t c o (completes completion w e) = absurd (w (told_idle c o))
    Step-left {s} t c o (accepts completion rest l r w e) = absurd (looping_unstopped c o l r)
    Step-left {s} t c o (refuses message l r w e) = absurd (looping_unstopped c o l r)
    Step-left {s} t c o (aborts l r w e) = absurd (looping_unstopped c o l r)
    Step-left {s} t c o (session_ends k l r w e) = absurd (looping_unstopped c o l r)
    Step-left {s} t c (inl o) (loop_returns l w e) = ground arith
    Step-left {s} t c (inr o) (loop_returns l w e) = absurd (ground (arith, joined_alone c o))
    Step-left {s} t c (inl o) (loop_restarts l e) = ground arith
    Step-left {s} t c (inr o) (loop_restarts l e) = absurd (ground (arith, joined_alone c o))
    Step-left {s} t c (inl o) (loop_leaves l e) = ground arith
    Step-left {s} t c (inr o) (loop_leaves l e) = absurd (ground (arith, joined_alone c o))

    module _ (cores : ℕ) (address : String) (port : ℕ) (n : N) (s : Server W a.Endpoint N)
        {t : System W a.Endpoint N} where
      -- Once `stop` has told the context, every step that any thread can take brings its end
      -- nearer: at most five steps are left, and each step leaves fewer.
      pub stop-left :
          {u : System W a.Endpoint N}
          → new_server a cores address port n ≡ ok s
          → Reach a (record { owner = free; server = s }) t
          → (t.owner ≡ told) ⊎ (t.owner ≡ joined)
          → Step a t u
          → (left u.owner u.server.worker_thread < left t.owner t.server.worker_thread)
            × (left t.owner t.server.worker_thread ≤ 5)
      stop-left {u} made run o step = (
        Step-left u (Reach-new_server-IsSound a cores address port n s made run) o step,
        left_bounded t.owner t.server.worker_thread,
      )
