-- ===== src/ClientSession/Async/Callback.antt =====
-- How often, and with what, an asynchronous call calls the user back.
use jsonrpc_for_cpp.Asio.{Failure, Report, Report-cases, broken, done}
use native.Mathlib.Omega.{arith}
use jsonrpc_for_cpp.Protocol.{serialize_request, parse_response}
use jsonrpc_for_cpp.Protocol.Refusals.{parse_response-RefusesOnly}
use jsonrpc_for_cpp.Results.{Result, Result-cases, ok, throw, rpc, std_exception, foreign}
use jsonrpc_for_cpp.Errors.{error_of, Error}
use jsonrpc_for_cpp.Errors.ErrorCode
use jsonrpc_for_cpp.Json.{JsonLib, null_value}
use Prim.Native.String.{◌++◌ as append}
use jsonrpc_for_cpp.Prelude.{[], ◌∷◌, ◌++◌, String, ◌≡◌, ◌≢◌, ◌⊎◌, inl, inr, refl, ap}
use jsonrpc_for_cpp.Types.Request.{Request}
use jsonrpc_for_cpp.Types.Response.{Response, failure}
use jsonrpc_for_cpp.ClientSession.{
  Network, Session, log, exchange, call, send_request_sync, parsed_or_logged,
}
use jsonrpc_for_cpp.ClientSession.Async.{async_call, on_response, on_parse_error, call_back}
use jsonrpc_for_cpp.ClientSession.Async.Once.{send_request_async-exchange, handle}

module _ ⦃J : JsonLib⦄ where
  -- What the outcome of an exchange means to the user of an asynchronous call: a failure of the
  -- network and a text that is no response are error responses with a null identifier.
  pub data Means : Report String → Response → Type 0 where
    unreached :
        {ec : Failure}
        → Means
            (broken ec)
            (failure (error_of ErrorCode.internal_error (append "网络错误: " ec.message)) null_value)
    answered : {text : String} {r : Response} → parse_response text ≡ ok r → Means (done text) r
    unreadable :
        {text : String} {e : Error}
        → parse_response text ≡ throw (rpc e)
        → Means (done text) (failure e null_value)

  pub parse_response-cases :
      (text : String)
      → ((r : Response) × (parse_response text ≡ ok r))
        ⊎ ((e : Error) × (parse_response text ≡ throw (rpc e)))
  parse_response-cases text = elim (Result-cases (parse_response text)) [
    | inl found ↦ inl found
    | inr (rpc e, h) ↦ inr (e, h)
    | inr (std_exception what, h) ↦ absurd (elim (parse_response-RefusesOnly text).0 [
      | inl (what, p, code, fails) ↦ ground arith
      | inr (jv, p, code) ↦ ground arith
    ])
    | inr (foreign, h) ↦ absurd (elim (parse_response-RefusesOnly text).0 [
      | inl (what, p, code, fails) ↦ ground arith
      | inr (jv, p, code) ↦ ground arith
    ])
  ]

  module _ {N : Type 0} (n : Network N) (callback : Response → Result (Unit {0})) where
    -- The callback throws no `Error`.
    module _ (calm : (x : Response) (e : Error) → callback x ≢ throw (rpc e)) where
      calm_on_parse_error :
          (r : Response) (s : Session N)
          → on_parse_error n callback (callback r, s) ≡ (callback r, s)
      unfolding on_parse_error
      calm_on_parse_error r s = elim (Result-cases (callback r)) [
        | inl (u, h) ↦ rw h refl
        | inr (rpc e, h) ↦ absurd (calm r e h)
        | inr (std_exception what, h) ↦ rw h refl
        | inr (foreign, h) ↦ rw h refl
      ]

      handled_once :
          (outcome : Report String) (u : Session N)
          → (x : Response) × Means outcome x
            × ((handle n (on_response n callback) outcome u).1.called ≡ u.called ++ x ∷ [])
      unfolding on_response call_back log
      handled_once (broken ec) u = (
        failure (error_of ErrorCode.internal_error (append "网络错误: " ec.message)) null_value,
        unreached,
        refl,
      )
      handled_once (done text) u = elim (parse_response-cases text) [
        | inl (r, h) ↦ (
          r,
          answered h,
          rw h (
              ap (λ z. z.1.called)
                (calm_on_parse_error r (record u { called = u.called ++ r ∷ [] }))),
        )
        | inr (e, h) ↦ (failure e null_value, unreadable h, rw (h, on_parse_error) refl)
      ]

      -- A callback that throws no `Error` is called exactly once, with what the outcome of the
      -- exchange means.
      pub async_call-Means :
          (request : Request) (s : Session N)
          → (x : Response) × Means (exchange n (serialize_request request) s).0 x
            × ((async_call n request callback s).1.called ≡ s.called ++ x ∷ [])
      unfolding async_call
      async_call-Means request s =
          let (u, same, run) =
            send_request_async-exchange n (serialize_request request) (on_response n callback) s in
          let (x, means, once) = handled_once (exchange n (serialize_request request) s).0 u in
          (x, means, rw (run, once, same.silent) refl)

    -- If the exchange brings a text that is parsed to a response, and the callback throws an
    -- `Error` on it, the callback is called twice: with the response, and then with that error
    -- under a null identifier.
    pub async_call-throw :
        (request : Request) (s : Session N) (text : String) (r : Response) (e : Error)
        → (exchange n (serialize_request request) s).0 ≡ done text
        → parse_response text ≡ ok r
        → callback r ≡ throw (rpc e)
        → (async_call n request callback s).1.called
          ≡ (s.called ++ r ∷ []) ++ failure e null_value ∷ []
    unfolding async_call on_response on_parse_error call_back log
    async_call-throw request s text r e h p c =
        let (u, same, run) =
          send_request_async-exchange n (serialize_request request) (on_response n callback) s in
        rw (run, h, p, c, on_response, on_parse_error, same.silent) refl

  module _ {N : Type 0} (n : Network N) where
    exchanged :
        (request : Request) (s : Session N) (r : Response)
        → (call n request s).0 ≡ ok r
        → (text : String) × ((exchange n (serialize_request request) s).0 ≡ done text)
          × (parse_response text ≡ ok r)
    unfolding call send_request_sync
    exchanged request s r h = elim (Report-cases (exchange n (serialize_request request) s).0) [
      | inr (ec, k) ↦ absurd (ground arith)
      | inl (text, k) ↦ elim (parse_response-cases text) [
        | inl (x, p) ↦ (text, k, unfold parsed_or_logged in ground arith)
        | inr (e, p) ↦ absurd (unfold parsed_or_logged in ground arith)
      ]
    ]

    Means_ok :
        (text : String) (r x : Response) (outcome : Report String)
        → outcome ≡ done text
        → parse_response text ≡ ok r
        → Means outcome x
        → x ≡ r
    Means_ok text r x outcome h p unreached = ground arith
    Means_ok text r x outcome h p (answered q) = ground arith
    Means_ok text r x outcome h p (unreadable q) = ground arith

    -- Where the synchronous call returns a response, the asynchronous call of the same request
    -- from the same state calls back once with the same response, if the callback throws no
    -- `Error`.
    pub async_call-call :
        (callback : Response → Result (Unit {0})) (request : Request) (s : Session N) (r : Response)
        → ((x : Response) (e : Error) → callback x ≢ throw (rpc e))
        → (call n request s).0 ≡ ok r
        → (async_call n request callback s).1.called ≡ s.called ++ r ∷ []
    async_call-call callback request s r calm h =
        let (text, sent, p) = exchanged request s r h in
        let (x, means, once) = async_call-Means n callback calm request s in
        rw (once, Means_ok text r x (exchange n (serialize_request request) s).0 sent p means) refl
