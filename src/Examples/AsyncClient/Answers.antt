-- ===== src/Examples/AsyncClient/Answers.antt =====
-- The calculator's answers to the three requests of the program of the asynchronous calls, and what
-- its callback prints for them.
use jsonrpc_for_cpp.Asio.{Report, done}
use jsonrpc_for_cpp.Examples.{Line, out, err}
use jsonrpc_for_cpp.Examples.AsyncClient.{async_line}
use jsonrpc_for_cpp.Examples.Calculator.{Arithmetic}
use jsonrpc_for_cpp.Examples.Calculator.Answers.{
  Operation, adding, multiplying, subtracting, name, meaning, task_operation, clean,
}
use jsonrpc_for_cpp.Examples.Calculator.Serves.{Offers}
use jsonrpc_for_cpp.Json.{JsonLib, array, int64, IsStable, kind-value}
use jsonrpc_for_cpp.Prelude.{
  List, [], ◌∷◌, ◌++◌, String, Bool, ◌≡◌, refl, Has, Distinct, ◌^◌, ◌∙◌, ap, ◌≢◌, sym, str_eq,
  false,
}
use jsonrpc_for_cpp.Prelude.Int.{ℤ, pos, InRange, ◌+ℤ◌, ◌-ℤ◌, ◌*ℤ◌}
use jsonrpc_for_cpp.Protocol.{
  request_value, response_value, serialize_request, parse_response, serialize_response,
}
use jsonrpc_for_cpp.Protocol.RoundTrip.{Sendable, succeeded, parse_response-serialize_response}
use jsonrpc_for_cpp.Registry.{Registry}
use jsonrpc_for_cpp.Results.{Result, ok, Yields}
use jsonrpc_for_cpp.ServerSession.{HttpRequest, HttpResponse, Processes}
use jsonrpc_for_cpp.ServerSession.Receives.{IsJsonPost}
use jsonrpc_for_cpp.ServerSession.Replies.{Processes-IsAnswered}
use jsonrpc_for_cpp.Types.Request.{Request, request_of}
use jsonrpc_for_cpp.Types.Response.{Response, success, result}
use jsonrpc_for_cpp.Prelude.Int
use Prim.Native.String.{◌++◌ as append}
use native.Mathlib.Omega.{arith}

module _ ⦃J : JsonLib⦄ where
  open J use {Value, value}

  -- The request of an operation on two numbers, and its response.
  abbrev pub request : Operation → ℤ → ℤ → ℤ → Request
  request o a b id =
      request_of (name o) (value (array (value (int64 a) ∷ value (int64 b) ∷ [])))
        (value (int64 id))

  abbrev pub response : Operation → ℤ → ℤ → ℤ → Response
  response o a b id = success (value (int64 (meaning o a b))) (value (int64 id))

  -- The one outcome of a session is the body that a session of the server wrote for the body that
  -- was sent to it; the texts of request and response are read back as written.
  pub record IsServed {W : Type 0} (g : Registry W) (o : Operation) (a b id : ℤ) (sent : String)
      (outcomes : List (Report String)) : Type 0 where
    pub fresh : Bool
    pub req : HttpRequest
    pub res : HttpResponse
    pub found : W
    pub left : W
    pub posted : IsJsonPost req
    pub delivered : req.body ≡ sent
    pub processed : Processes fresh g req found res left
    pub brought : outcomes ≡ done res.body ∷ []
    pub request_readable : IsStable (request_value (request o a b id))
    pub response_readable : IsStable (response_value (response o a b id))

  request-Sendable : (o : Operation) (a b id : ℤ) → Sendable (request o a b id)
  unfolding request_of
  request-Sendable o a b id = record {
    valid = record {
      params = ground (arith, kind-value (array (value (int64 a) ∷ value (int64 b) ∷ [])));
      id = ground (arith, kind-value (int64 id));
    };
    clean = clean o;
  }

  module _ (m : Arithmetic) {W : Type 0} (g : Registry W) (offers : Offers m g) where
    pub IsServed-response :
        (o : Operation) (a b id : ℤ) (sent : String) (outcomes : List (Report String))
        → InRange (2 ^ 31) a
        → InRange (2 ^ 31) b
        → InRange (2 ^ 31) (meaning o a b)
        → sent ≡ serialize_request (request o a b id)
        → (h : IsServed g o a b id sent outcomes)
        → parse_response h.res.body ≡ ok (response o a b id)
    IsServed-response o a b id sent outcomes h k l same s =
        let (made, left) =
          Processes-IsAnswered s.fresh g s.req (request o a b id) s.found s.left s.res s.posted
            (request-Sendable o a b id) s.request_readable (s.delivered ∙ same)
            (unfold request_of in refl) s.processed in
        ap (λ z. parse_response z.body) made
        ∙ ap (λ z. parse_response (serialize_response z.0))
            (task_operation m g offers o a b (value (int64 id)) s.found h k l)
        ∙ parse_response-serialize_response (response o a b id)
            (succeeded (value (int64 (meaning o a b))) (value (int64 id))) s.response_readable

  -- The three responses, and the lines that the callback prints for them.
  abbrev pub expected : List Response
  expected =
      response adding (pos 1) (pos 2) (pos 1)
      ∷ response multiplying (pos 3) (pos 4) (pos 2)
      ∷ response subtracting (pos 20) (pos 5) (pos 3)
      ∷ []

  abbrev pub answer_lines : List Line
  answer_lines = out "异步结果: 3" ∷ out "异步结果: 12" ∷ out "异步结果: 15" ∷ []

  async_line-success :
      (wrong_kind : String) (z : ℤ) (id : Value)
      → async_line wrong_kind (success (value (int64 z)) id)
        ≡ ok (out (append "异步结果: " (Int.to_string z)))
  unfolding async_line success result
  async_line-success wrong_kind z id = ground (arith, kind-value (int64 z))

  pub expected_lines : (wrong_kind : String) → Yields (async_line wrong_kind) expected answer_lines
  unfolding ◌+ℤ◌ ◌-ℤ◌ ◌*ℤ◌ Int.to_string
  expected_lines wrong_kind = (
    async_line-success wrong_kind (pos 3) (value (int64 (pos 1))),
    (
      async_line-success wrong_kind (pos 12) (value (int64 (pos 2))),
      (async_line-success wrong_kind (pos 15) (value (int64 (pos 3))), tt),
    ),
  )

  success_ne :
      (x y : ℤ) (i j : Value) → x ≢ y → success (value (int64 x)) i ≢ success (value (int64 y)) j
  unfolding success
  success_ne x y i j other h =
      let same =
        sym (kind-value (int64 x)) ∙ ap (λ r. J.kind r.result_value) h ∙ kind-value (int64 y) in
      other (ground arith)

  pub expected-Distinct : Distinct expected
  unfolding ◌+ℤ◌ ◌-ℤ◌ ◌*ℤ◌
  expected-Distinct = (
    (
      success_ne (pos 12) (pos 3) _ _ (λ h. ground arith),
      (success_ne (pos 15) (pos 3) _ _ (λ h. ground arith), tt),
    ),
    ((success_ne (pos 15) (pos 12) _ _ (λ h. ground arith), tt), (tt, tt)),
  )

  abbrev is_out : String → Line → Bool
  is_out text (out s) = str_eq text s
  is_out text (err s) = false

  pub answer_lines-Distinct : Distinct answer_lines
  answer_lines-Distinct = (
    (
      (λ h. let e = ap (is_out "异步结果: 3") h in ground arith),
      ((λ h. let e = ap (is_out "异步结果: 3") h in ground arith), tt),
    ),
    (((λ h. let e = ap (is_out "异步结果: 12") h in ground arith), tt), (tt, tt)),
  )

  pub Yields-Has :
      {A B : Type 0} (f : A → Result B) (front back : List A) (ys : List B) (x : A) (y : B)
      → Yields f (front ++ x ∷ back) ys
      → f x ≡ ok y
      → Has ys y
  Yields-Has f [] back [] x y h k = elim h [ ]
  Yields-Has f [] back (z ∷ ys) x y (h, t) k = ([], ys, ground arith)
  Yields-Has f (a ∷ front) back [] x y h k = elim h [ ]
  Yields-Has f (a ∷ front) back (z ∷ ys) x y (h, t) k =
      let (fore, aft, made) = Yields-Has f front back ys x y t k in
      (z ∷ fore, aft, ap (λ u. z ∷ u) made)
