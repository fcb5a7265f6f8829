-- ===== src/Client/Loop/Outcomes.antt =====
-- What the user of a client gets for the outcome of one of its asynchronous calls, among the
-- callbacks of a run of the event loop.
use jsonrpc_for_cpp.Asio.{Report, done}
use jsonrpc_for_cpp.Client.Loop.{Event}
use jsonrpc_for_cpp.Client.Loop.Events.{Calls, silent, more, outcomes_by}
use jsonrpc_for_cpp.Client.Loop.Counts.{IsCalm}
use jsonrpc_for_cpp.ClientSession.Pending.Called.{Called, unreached, unreadable, answered, rejected}
use jsonrpc_for_cpp.Json.{JsonLib}
use jsonrpc_for_cpp.Prelude.{ℕ, List, [], ◌∷◌, ◌++◌, String, All, All-get, ◌≡◌, sym, ap, ◌∙◌}
use jsonrpc_for_cpp.Protocol.{parse_response}
use jsonrpc_for_cpp.Results.{Result, ok}
use jsonrpc_for_cpp.Types.Response.{Response}
use mathlib.Core.List.{append_assoc}
use native.Mathlib.Decide.{ℕ_discrete}
use native.Mathlib.Omega.{arith}

module _ ⦃J : JsonLib⦄ where
  Called_readable :
      (callback : Response → Result (Unit {0})) (text : String) (r : Response)
      (outcome : Report String) (xs : List Response) (result : Result (Unit {0}))
      → IsCalm callback
      → parse_response text ≡ ok r
      → outcome ≡ done text
      → Called callback outcome xs result
      → xs ≡ r ∷ []
  Called_readable callback text r outcome xs result calm p h (unreached same) = ground arith
  Called_readable callback text r outcome xs result calm p h (unreadable q) = ground arith
  Called_readable callback text r outcome xs result calm p h (answered q same other) = ground arith
  Called_readable callback text r outcome xs result calm p h (rejected {r = s} {e = e} q thrown) =
      absurd (calm s e thrown)

  module _ (callbacks : List (Response → Result (Unit {0}))) (calm : All IsCalm callbacks) where
    -- If a session had the one outcome of a text that is parsed to a response, that response is
    -- among those that the user got.
    pub Calls-response :
        (i : ℕ) (text : String) (r : Response) (es : List Event) (xs : List Response)
        → parse_response text ≡ ok r
        → outcomes_by i es ≡ done text ∷ []
        → Calls callbacks es xs
        → (front : List Response) × (back : List Response) × (xs ≡ front ++ r ∷ back)
    Calls-response i text r es xs p h silent = absurd (ground arith)
    Calls-response i text r es xs p h
          (more {e = e} {es = fs} {callback = callback} {xs = ys} {ys = zs} found c rest) =
        elim (ℕ_discrete e.by i) [
          | yes same ↦
              let mine =
                Called_readable callback text r e.outcome ys e.result
                  (All-get IsCalm callbacks e.by calm found) p (ground arith) c in
              ([], zs, ap (λ z. z ++ zs) mine)
          | no other ↦
              let (front, back, made) = Calls-response i text r fs zs p (ground arith) rest in
              (ys ++ front, back, ap (λ z. ys ++ z) made ∙ sym (append_assoc ys front (r ∷ back)))
        ]
