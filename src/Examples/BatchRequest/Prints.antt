-- ===== src/Examples/BatchRequest/Prints.antt =====
-- What the program of the batch prints against the calculator, and whether it ends.
use Prim.Native.String.{◌++◌ as append}
use jsonrpc_for_cpp.Json.{JsonLib, int64, array, IsStable, kind-value}
use jsonrpc_for_cpp.Asio.{done}
use jsonrpc_for_cpp.Client.{call_batch, create_session}
use jsonrpc_for_cpp.Client.Batch.{call_batch-AnswersAll}
use jsonrpc_for_cpp.ClientSession.{Network, exchange}
use jsonrpc_for_cpp.Examples.{Line, out}
use jsonrpc_for_cpp.Examples.BatchRequest.{
  requests, numbered, response_line, on_error, batch_client, batch_main,
}
use jsonrpc_for_cpp.Examples.Calculator.{Arithmetic}
use jsonrpc_for_cpp.Examples.Calculator.Answers.{task_operation, adding, subtracting, multiplying}
use jsonrpc_for_cpp.Examples.Calculator.Serves.{Offers}
use jsonrpc_for_cpp.Prelude.{
  List, [], ◌∷◌, ◌≡◌, refl, ap, sym, subst, ◌∙◌, All, Bool, ℕ, map, arith, String, no_nul, true,
}
use jsonrpc_for_cpp.Prelude.Int.{pos, ◌+ℤ◌, ◌-ℤ◌, ◌*ℤ◌}
use jsonrpc_for_cpp.Protocol.{request_value, response_value, serialize_batch_request}
use jsonrpc_for_cpp.Protocol.RoundTrip.{Sendable, Sound, succeeded}
use jsonrpc_for_cpp.Registry.{Registry}
use jsonrpc_for_cpp.Registry.Batch.Order.{AnswersAll, calls}
use jsonrpc_for_cpp.Results.{ok, collect}
use jsonrpc_for_cpp.ServerSession.{HttpRequest, HttpResponse, Processes}
use jsonrpc_for_cpp.ServerSession.Receives.{IsJsonPost}
use jsonrpc_for_cpp.Types.Request.{request_of}
use jsonrpc_for_cpp.Types.Response.{Response, success, result}

module _ ⦃J : JsonLib⦄ where
  open J use {value, serialize}

  -- The three responses.
  abbrev pub expected : List Response
  expected =
      success (value (int64 (pos 3))) (value (int64 (pos 1)))
      ∷ success (value (int64 (pos 15))) (value (int64 (pos 2)))
      ∷ success (value (int64 (pos 16))) (value (int64 (pos 3)))
      ∷ []

  abbrev pub answer_line : ℕ → ℕ → Line
  answer_line id v = out (
      append "请求 " (
        append (serialize (value (int64 (pos id))))
          (append " 的结果: " (serialize (value (int64 (pos v)))))))

  module _ (m : Arithmetic) {W : Type 0} (g : Registry W) (offers : Offers m g) where
    answered : (xs : List Response) → AnswersAll g (calls requests) xs → xs ≡ expected
    unfolding numbered request_of ◌+ℤ◌ ◌-ℤ◌ ◌*ℤ◌
    answered [] h = elim h [ ]
    answered (x ∷ []) h = elim h.1 [ ]
    answered (x ∷ y ∷ []) h = elim h.1.1 [ ]
    answered (x ∷ y ∷ z ∷ []) ((u, hx), ((v, hy), ((w, hz), _))) = cc (
      hx
          ∙ ap (λ r. r.0)
              (task_operation m g offers adding (pos 1) (pos 2) (value (int64 (pos 1))) u
                (omega arith) (omega arith) (omega arith)),
      hy
          ∙ ap (λ r. r.0)
              (task_operation m g offers multiplying (pos 3) (pos 5) (value (int64 (pos 2))) v
                (omega arith) (omega arith) (omega arith)),
      hz
          ∙ ap (λ r. r.0)
              (task_operation m g offers subtracting (pos 20) (pos 4) (value (int64 (pos 3))) w
                (omega arith) (omega arith) (omega arith)),
    )
    answered (x ∷ y ∷ z ∷ t ∷ xs) h = elim h.1.1.1 [ ]

  expected-Sound : All Sound expected
  expected-Sound = (
    succeeded (value (int64 (pos 3))) (value (int64 (pos 1))),
    (
      succeeded (value (int64 (pos 15))) (value (int64 (pos 2))),
      (succeeded (value (int64 (pos 16))) (value (int64 (pos 3))), tt),
    ),
  )

  numbered-Sendable :
      (method : String) (a b id : ℕ) → no_nul method ≡ true → Sendable (numbered method a b id)
  unfolding numbered request_of
  numbered-Sendable method a b id clean = record {
    valid = record {
      params =
          ground (arith, kind-value (array (value (int64 (pos a)) ∷ value (int64 (pos b)) ∷ [])));
      id = ground (arith, kind-value (int64 (pos id)));
    };
    clean = clean;
  }

  pub requests-Sendable : All Sendable requests
  requests-Sendable = (
    numbered-Sendable "add" 1 2 1 refl,
    (numbered-Sendable "multiply" 3 5 2 refl, (numbered-Sendable "subtract" 20 4 3 refl, tt)),
  )

  abbrev pub answer_lines : List Line
  answer_lines = answer_line 1 3 ∷ answer_line 2 15 ∷ answer_line 3 16 ∷ []

  expected_lines : collect response_line expected ≡ ok answer_lines
  unfolding collect response_line success result
  expected_lines = refl

  module _ {N : Type 0} (n : Network N) (net : N) where
    prints :
        (call_batch n requests (batch_client net)).0 ≡ ok expected
        → batch_main n net ≡ ok (answer_lines, 0)
    unfolding batch_main on_error
    prints h = ground (arith, expected_lines)

    -- Against the calculator, the program prints the sum, the product and the difference with their
    -- identifiers, in the order of the requests, whatever the order in which the pool ran them, and
    -- ends with exit code 0: if the batch reaches a session of a server that offers the
    -- calculator's functions and the network delivers what the session writes; and if the texts of
    -- the batch and of its three responses are read back as written.
    pub batch_main-prints :
        (m : Arithmetic) {W : Type 0} (g : Registry W) (fresh : Bool) (req : HttpRequest) (w w' : W)
        (res : HttpResponse)
        → Offers m g
        → IsStable (value (array (map request_value requests)))
        → IsJsonPost req
        → req.body ≡ serialize_batch_request requests
        → Processes fresh g req w res w'
        → (exchange n (serialize_batch_request requests) (create_session (batch_client net))).0
          ≡ done res.body
        → IsStable (value (array (map response_value expected)))
        → batch_main n net ≡ ok (answer_lines, 0)
    batch_main-prints m g fresh req w w' res offers h p b processed sent k =
        let (xs, _, answers, made) =
          call_batch-AnswersAll n g fresh (batch_client net) (numbered "add" 1 2 1)
            (numbered "multiply" 3 5 2 ∷ numbered "subtract" 20 4 3 ∷ []) req w w' res
            requests-Sendable h p b processed sent readable in
        prints (made ∙ ap ok (answered m g offers xs answers))
      where
        readable :
            (xs : List Response)
            → AnswersAll g (calls requests) xs
            → All Sound xs × IsStable (value (array (map response_value xs)))
        readable xs answers =
            subst (λ ys. All Sound ys × IsStable (value (array (map response_value ys))))
              (sym (answered m g offers xs answers)) (expected-Sound, k)
