-- ===== src/ClientSession/Pending/Called.antt =====
-- How often, and with what, a session of include/jsonrpc/impl/client_session.ipp calls the user
-- back when its exchange is over.
use jsonrpc_for_cpp.Asio.{Failure, Report, broken, done, Report-cases}
use jsonrpc_for_cpp.ClientSession.{Network, Session, log, write_request}
use jsonrpc_for_cpp.ClientSession.Async.{on_response, on_parse_error, call_back}
use jsonrpc_for_cpp.ClientSession.Async.Callback.{parse_response-cases}
use jsonrpc_for_cpp.ClientSession.Async.Once.{handle}
use jsonrpc_for_cpp.ClientSession.Pending.{
  Operation, resolving, connecting, writing, reading, turn, stop, on_resolve, on_connect, on_write,
  on_read,
}
use jsonrpc_for_cpp.Errors.{Error, error_of}
use jsonrpc_for_cpp.Errors.ErrorCode
use jsonrpc_for_cpp.Json.{JsonLib, null_value}
use Prim.Native.String.{◌++◌ as append}
use jsonrpc_for_cpp.Prelude.{List, [], ◌∷◌, ◌++◌, String, ◌≡◌, ◌≢◌, inl, inr, refl}
use jsonrpc_for_cpp.Protocol.{parse_response}
use jsonrpc_for_cpp.Results.{Result, ok, throw, rpc, std_exception, foreign, Result-cases}
use jsonrpc_for_cpp.Types.Response.{Response, failure}
use mathlib.Core.List.{append_assoc}
use native.Mathlib.Omega.{arith}

module _ ⦃J : JsonLib⦄ where
  module _ (callback : Response → Result (Unit {0})) where
    -- The responses that the callback gets for an outcome, in order, and what it returns or throws
    -- last. It gets a second one if it throws an `Error` on the first, which the handler takes for
    -- an error of the parser.
    pub data Called : Report String → List Response → Result (Unit {0}) → Type 0 where
      unreached :
          {ec : Failure} {x : Response}
          → x ≡ failure (error_of ErrorCode.internal_error (append "网络错误: " ec.message)) null_value
          → Called (broken ec) (x ∷ []) (callback x)
      unreadable :
          {text : String} {e : Error}
          → parse_response text ≡ throw (rpc e)
          → Called (done text) (failure e null_value ∷ []) (callback (failure e null_value))
      answered :
          {text : String} {r : Response} {y : Result (Unit {0})}
          → parse_response text ≡ ok r
          → callback r ≡ y
          → ((e : Error) → y ≢ throw (rpc e))
          → Called (done text) (r ∷ []) y
      rejected :
          {text : String} {r : Response} {e : Error}
          → parse_response text ≡ ok r
          → callback r ≡ throw (rpc e)
          → Called (done text) (r ∷ failure e null_value ∷ []) (callback (failure e null_value))

    module _ {N : Type 0} (n : Network N) where
      read-Answers :
          (text : String) (r : Response) (s : Session N)
          → parse_response text ≡ ok r
          → (xs : List Response) × Called
              (done text)
              xs
              (on_parse_error n callback (call_back n callback r s)).0
            × ((on_parse_error n callback (call_back n callback r s)).1.called ≡ s.called ++ xs)
      unfolding call_back on_parse_error log
      read-Answers text r s p = elim (Result-cases (callback r)) [
        | inl (u, h) ↦ (
          r ∷ [],
          rw (h, on_parse_error) (answered p h (λ e k. ground arith)),
          rw (h, on_parse_error) refl,
        )
        | inr (rpc e, h) ↦ (
          r ∷ failure e null_value ∷ [],
          rw (h, on_parse_error) (rejected p h),
          rw (h, on_parse_error, append_assoc) refl,
        )
        | inr (std_exception what, h) ↦ (
          r ∷ [],
          rw (h, on_parse_error) (answered p h (λ e k. ground arith)),
          rw (h, on_parse_error) refl,
        )
        | inr (foreign, h) ↦ (
          r ∷ [],
          rw (h, on_parse_error) (answered p h (λ e k. ground arith)),
          rw (h, on_parse_error) refl,
        )
      ]

      pub handled-Called :
          (outcome : Report String) (s : Session N)
          → (xs : List Response) × Called outcome xs (handle n (on_response n callback) outcome s).0
            × ((handle n (on_response n callback) outcome s).1.called ≡ s.called ++ xs)
      unfolding on_response call_back on_parse_error log
      handled-Called (broken ec) s = (_, unreached refl, refl)
      handled-Called (done text) s = elim (parse_response-cases text) [
        | inl (r, p) ↦ rw p (read-Answers text r s p)
        | inr (e, p) ↦ (
          failure e null_value ∷ [],
          rw (p, on_parse_error) (unreadable p),
          rw (p, on_parse_error) refl,
        )
      ]

  module _ {N : Type 0} (n : Network N) where
    pub turn-called :
        (operation : Operation n.Endpoints) (s : Session N)
        → (turn n operation s).1.called ≡ s.called
    unfolding turn write_request on_resolve on_connect on_write on_read stop log
    turn-called resolving s = elim (Report-cases (n.resolve s.host s.port s.net).0) [
      | inl (a, h) ↦ rw h refl
      | inr (ec, h) ↦ rw h refl
    ]
    turn-called (connecting endpoints) s = elim (Report-cases (n.connect endpoints s.net).0) [
      | inl (a, h) ↦ rw h refl
      | inr (ec, h) ↦ rw h refl
    ]
    turn-called writing s = elim (Report-cases (write_request n s.req s.net).0) [
      | inl (a, h) ↦ rw h refl
      | inr (ec, h) ↦ rw h refl
    ]
    turn-called reading s = elim (Report-cases (n.read s.net).0) [
      | inl (a, h) ↦ rw h refl
      | inr (ec, h) ↦ rw h refl
    ]
