-- ===== src/Client/Loop/Orders.antt =====
-- The handlers of a list of sessions one after the other, against the steps of the event loop of a
-- client.
use jsonrpc_for_cpp.Types.Response.{Response}
use jsonrpc_for_cpp.Client.Loop.{Loop, Event, Run, completes, step, complete, run_handlers}
use jsonrpc_for_cpp.Client.Loop.Accounts.{callbacks_of, Handled-callbacks}
use jsonrpc_for_cpp.Client.Loop.Handlers.{complete-Handled}
use jsonrpc_for_cpp.Json.{JsonLib}
use jsonrpc_for_cpp.Prelude.{
  ℕ, List, [], ◌∷◌, ◌++◌, length, ◌≡◌, inl, inr, Option-cases, refl, length-set, sym, ◌∙◌, ap,
}
use mathlib.Core.List.{append_assoc, append-nil}

module _ ⦃J : JsonLib⦄ {N : Type 0} where
  pub run_handlers-Run :
      (l : Loop N) (es : List Event) (k : Loop N) (is : List ℕ)
      → Run l es k
      → Run l (es ++ (run_handlers is k).0) (run_handlers is k).1
  unfolding run_handlers
  run_handlers-Run l es k [] r = rw append-nil r
  run_handlers-Run l es k (j ∷ is) r = elim (Option-cases (complete j k)) [
    | inl h ↦ rw (h, run_handlers) (run_handlers-Run l es k is r)
    | inr ((fs, m), h) ↦
        rw (h, run_handlers, sym (append_assoc es fs (run_handlers is m).0))
          (run_handlers-Run l (es ++ fs) m is (step r (completes j h)))
  ]

  pub run_handlers-length :
      (is : List ℕ) (l : Loop N) → length (run_handlers is l).1.exchanges ≡ length l.exchanges
  unfolding run_handlers
  run_handlers-length [] l = refl
  run_handlers-length (j ∷ is) l = elim (Option-cases (complete j l)) [
    | inl h ↦ rw (h, run_handlers) (run_handlers-length is l)
    | inr ((es, k), h) ↦
        rw (h, run_handlers, run_handlers-length is k)
          (rw ((complete-Handled j l es k h).stored) (length-set l.exchanges j _))
  ]

  pub run_handlers-callbacks :
      (is : List ℕ) (l : Loop N)
      → callbacks_of (run_handlers is l).1.exchanges ≡ callbacks_of l.exchanges
  unfolding run_handlers
  run_handlers-callbacks [] l = refl
  run_handlers-callbacks (j ∷ is) l = elim (Option-cases (complete j l)) [
    | inl h ↦ rw (h, run_handlers) (run_handlers-callbacks is l)
    | inr ((es, k), h) ↦
        rw (h, run_handlers)
          (run_handlers-callbacks is k ∙ Handled-callbacks (complete-Handled j l es k h))
  ]

  -- The handlers only add callbacks.
  pub run_handlers-called :
      (is : List ℕ) (l : Loop N)
      → (xs : List Response) × ((run_handlers is l).1.client.called ≡ l.client.called ++ xs)
  unfolding run_handlers
  run_handlers-called [] l = ([], sym (append-nil l.client.called))
  run_handlers-called (j ∷ is) l = elim (Option-cases (complete j l)) [
    | inl h ↦ rw (h, run_handlers) (run_handlers-called is l)
    | inr ((es, k), h) ↦
        let d = complete-Handled j l es k h in
        let (xs, more) = run_handlers-called is k in
        rw (h, run_handlers)
          (
            d.responses ++ xs,
            more ∙ ap (λ z. z ++ xs) d.called ∙ append_assoc l.client.called d.responses xs,
          )
  ]

  pub run_handlers-append :
      (is js : List ℕ) (l : Loop N)
      → (run_handlers (is ++ js) l).1 ≡ (run_handlers js (run_handlers is l).1).1
  unfolding run_handlers
  run_handlers-append [] js l = refl
  run_handlers-append (j ∷ is) js l = elim (Option-cases (complete j l)) [
    | inl h ↦ rw (h, run_handlers) (run_handlers-append is js l)
    | inr ((es, k), h) ↦ rw (h, run_handlers) (run_handlers-append is js k)
  ]
