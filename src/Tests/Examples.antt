-- ===== src/Tests/Examples.antt =====
-- The example programs against the calculator, and typed calls that it refuses.
use jsonrpc_for_cpp.Converter.Args.Laws.{AreFaithful}
use jsonrpc_for_cpp.Converter.{int_converter, int_from_json, double_converter}
use jsonrpc_for_cpp.Converter.Args.{pack_args}
use jsonrpc_for_cpp.Client.Identifiers.{call-net, call-next_id}
use jsonrpc_for_cpp.Examples.{err}
use jsonrpc_for_cpp.Results.{ok, throw, rpc}
use jsonrpc_for_cpp.Asio.{done}
use jsonrpc_for_cpp.Json.{IsStable}
use jsonrpc_for_cpp.Prelude.{ℕ, List, [], ◌∷◌, ◌≡◌, refl, true, subst, ap, sym, ◌∙◌}
use jsonrpc_for_cpp.Prelude.Int.{pos, to_string, to_int32}
use Prim.Native.String.{String}
use native.Mathlib.Omega.{arith}
use jsonrpc_for_cpp.Client.{call, typed_request, new_client, create_session, generate_id}
use jsonrpc_for_cpp.Client.Remote.{call_throws}
use jsonrpc_for_cpp.ClientSession.{exchange}
use jsonrpc_for_cpp.Errors.ErrorCode
use jsonrpc_for_cpp.Errors.{error_of, error_with, error_json}
use jsonrpc_for_cpp.Examples.Calculator.{two_ints, divide}
use jsonrpc_for_cpp.Examples.ErrorHandling.{made_client, error_handling_main}
use jsonrpc_for_cpp.Examples.ErrorHandling.Prints.{
  first, second, between, error_handling_main-prints,
}
use jsonrpc_for_cpp.Protocol.{request_value, response_value, serialize_request}
use jsonrpc_for_cpp.Protocol.RoundTrip.{Sendable}
use jsonrpc_for_cpp.Tests.Calculator.{
  answer, processed, finished, scripted, calculator, calculator-Offers, arithmetic,
  calculator_has_no, scripted_delivers,
}
use jsonrpc_for_cpp.Tests.Sample.{
  sample_json, null, int64, array, cons, nil, parse_tree, print_tree,
}
use jsonrpc_for_cpp.Tests.ServerSession.{post, post-IsJsonPost}
use jsonrpc_for_cpp.Types.Request.{Request, request_of}
use jsonrpc_for_cpp.Types.Request
use jsonrpc_for_cpp.Types.Response
use jsonrpc_for_cpp.Types.Response.{success, failure}

-- The requests of the program of the refused calls.
abbrev divide_request : Request
divide_request =
    request_of "divide" (array (cons (int64 (pos 10)) (cons (int64 (pos 0)) nil))) (int64 (pos 1))

abbrev unknown_request : Request
unknown_request =
    request_of "method_not_exists" (array (cons (int64 (pos 1)) (cons (int64 (pos 2)) nil)))
      (int64 (pos 2))

divide_request-Sendable : Sendable divide_request
unfolding request_of
divide_request-Sendable = record { valid = record { params = refl; id = refl }; clean = refl }

unknown_request-Sendable : Sendable unknown_request
unfolding request_of
unknown_request-Sendable = record { valid = record { params = refl; id = refl }; clean = refl }

divide_request-IsStable : IsStable (request_value divide_request)
unfolding Request.to_json parse_tree print_tree to_string request_of
divide_request-IsStable = refl

unknown_request-IsStable : IsStable (request_value unknown_request)
unfolding Request.to_json parse_tree print_tree to_string request_of
unknown_request-IsStable = refl

refusal-IsStable :
    IsStable
      (response_value (failure (error_of ErrorCode.invalid_params "除数不能为 0") (int64 (pos 1))))
unfolding Response.to_json failure error_of error_json parse_tree print_tree to_string
refusal-IsStable = refl

unknown-IsStable : IsStable (
    response_value
      (failure (error_of ErrorCode.method_not_found "方法不存在: method_not_exists") (int64 (pos 2))))
unfolding Response.to_json failure error_of error_json parse_tree print_tree to_string
unknown-IsStable = refl

abbrev world : ℕ
world = (finished 0 divide_request).world

abbrev texts : List String
texts = (answer 0 divide_request).body ∷ (answer world unknown_request).body ∷ []

first_is : (first scripted texts).0 ≡ divide_request
unfolding typed_request pack_args new_client request_of
first_is = refl

first_delivered :
    (exchange scripted
      (serialize_request (first scripted texts).0)
      (create_session (first scripted texts).1)).0
    ≡ done (answer 0 divide_request).body
first_delivered =
    (scripted_delivers (serialize_request (first scripted texts).0) (answer 0 divide_request).body
      ((answer world unknown_request).body ∷ []) (create_session (first scripted texts).1)
      (unfold create_session typed_request new_client in refl)).0

second_id : (between scripted texts).next_id ≡ pos 2
second_id =
    call-next_id scripted int_converter "divide" two_ints (pos 10, (pos 0, tt))
      (made_client scripted texts)
    ∙ (unfold new_client in refl)

second_net : (between scripted texts).net ≡ (answer world unknown_request).body ∷ []
second_net =
    call-net scripted int_converter "divide" two_ints (pos 10, (pos 0, tt))
      (made_client scripted texts)
    ∙ (scripted_delivers (serialize_request (first scripted texts).0) (answer 0 divide_request).body
        ((answer world unknown_request).body ∷ []) (create_session (first scripted texts).1)
        (unfold create_session typed_request new_client in refl)).1

second_is : (second scripted texts).0 ≡ unknown_request
unfolding typed_request pack_args request_of generate_id
second_is = ap (λ id. request_of "method_not_exists" unknown_request.params (int64 id)) second_id

second_delivered :
    (exchange scripted
      (serialize_request (second scripted texts).0)
      (create_session (second scripted texts).1)).0
    ≡ done (answer world unknown_request).body
second_delivered =
    (scripted_delivers (serialize_request (second scripted texts).0)
      (answer world unknown_request).body [] (create_session (second scripted texts).1)
      (unfold create_session typed_request generate_id in second_net)).0

second_answer-IsStable : IsStable (
    response_value (
      failure
        (error_of ErrorCode.method_not_found "方法不存在: method_not_exists")
        (int64 (between scripted texts).next_id)))
second_answer-IsStable =
    subst
      (λ id. IsStable (
        response_value
          (failure (error_of ErrorCode.method_not_found "方法不存在: method_not_exists") (int64 id))))
      (sym second_id) unknown-IsStable

ten_by_zero-AreFaithful : AreFaithful two_ints (pos 10, (pos 0, tt))
unfolding int_from_json to_int32
ten_by_zero-AreFaithful = (refl, (refl, tt))

error_handling_main-prints_example :
    error_handling_main scripted texts
    ≡ ok (
      err "捕获到 JSON-RPC 错误: 除数不能为 0 (code=-32602)" ∷ err "未知方法错误: 方法不存在: method_not_exists" ∷ [],
      0,
    )
error_handling_main-prints_example =
    error_handling_main-prints scripted texts arithmetic calculator 0 world
      (finished world unknown_request).world true true (post (serialize_request divide_request))
      (post (serialize_request unknown_request)) (answer 0 divide_request)
      (answer world unknown_request) calculator-Offers calculator_has_no
      (subst (λ r. IsStable (request_value r)) (sym first_is) divide_request-IsStable)
      (post-IsJsonPost (serialize_request divide_request)) (ap serialize_request (sym first_is))
      (processed 0 divide_request divide_request-Sendable divide_request-IsStable) first_delivered
      (unfold new_client in refusal-IsStable)
      (subst (λ r. IsStable (request_value r)) (sym second_is) unknown_request-IsStable)
      (post-IsJsonPost (serialize_request unknown_request)) (ap serialize_request (sym second_is))
      (processed world unknown_request unknown_request-Sendable unknown_request-IsStable)
      second_delivered second_answer-IsStable

call_throws_example :
    ((call scripted int_converter "divide" two_ints
        (pos 10, (pos 0, tt))
        (made_client scripted texts)).0
      ≡ throw (rpc (error_with ErrorCode.invalid_params "除数不能为 0" null)))
    × (world ≡ 0)
unfolding error_of error_with
call_throws_example =
    call_throws two_ints (pos 10, (pos 0, tt)) int_converter "divide" scripted calculator
      (made_client scripted texts) true (post (serialize_request divide_request)) 0 world
      (answer 0 divide_request) refl
      (subst (λ r. IsStable (request_value r)) (sym first_is) divide_request-IsStable)
      (post-IsJsonPost (serialize_request divide_request)) (ap serialize_request (sym first_is))
      (processed 0 divide_request divide_request-Sendable divide_request-IsStable) first_delivered
      (divide arithmetic) (double_converter arithmetic.floats).to_json ErrorCode.invalid_params
      "除数不能为 0" null 0 calculator-Offers.divides ten_by_zero-AreFaithful (unfold divide in refl)
      (omega arith) refl (unfold new_client in refusal-IsStable)
