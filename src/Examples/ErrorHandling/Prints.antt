-- ===== src/Examples/ErrorHandling/Prints.antt =====
-- What the program of the refused calls prints against the calculator.
use jsonrpc_for_cpp.Asio.{done}
use jsonrpc_for_cpp.Client.{Client, typed_request, create_session}
use jsonrpc_for_cpp.Client.Remote.{call_unknown}
use jsonrpc_for_cpp.ClientSession.{Network, exchange}
use jsonrpc_for_cpp.Converter.{int_converter}
use jsonrpc_for_cpp.Errors.ErrorCode
use jsonrpc_for_cpp.Errors.{error_of}
use jsonrpc_for_cpp.Examples.{err}
use jsonrpc_for_cpp.Examples.Calculator.{Arithmetic, two_ints}
use jsonrpc_for_cpp.Examples.Calculator.Answers.{divide_by_zero}
use jsonrpc_for_cpp.Examples.Calculator.Serves.{Offers}
use jsonrpc_for_cpp.Examples.ErrorHandling.{
  made_client, divide_call, unknown_call, divide_lines, unknown_lines, error_handling_main,
}
use jsonrpc_for_cpp.Json.{JsonLib, IsStable, int64}
use jsonrpc_for_cpp.Prelude.{Bool, [], ◌∷◌, ◌≡◌, refl, none, arith}
use jsonrpc_for_cpp.Prelude.Int.{pos, to_string}
use jsonrpc_for_cpp.Protocol.{request_value, response_value, serialize_request}
use jsonrpc_for_cpp.Registry.{Registry, find_entry}
use jsonrpc_for_cpp.Results.{ok, throw, rpc}
use jsonrpc_for_cpp.ServerSession.{HttpRequest, HttpResponse, Processes}
use jsonrpc_for_cpp.ServerSession.Receives.{IsJsonPost}
use jsonrpc_for_cpp.Types.Request.{Request}
use jsonrpc_for_cpp.Types.Response.{failure}

module _ ⦃J : JsonLib⦄ where
  open J use {value}

  module _ {N : Type 0} (n : Network N) (net : N) where
    -- The two requests.
    abbrev pub first : Request × Client N
    first = typed_request "divide" two_ints (pos 10, (pos 0, tt)) (made_client n net)

    abbrev pub between : Client N
    between = (divide_call n (made_client n net)).1

    abbrev pub second : Request × Client N
    second = typed_request "method_not_exists" two_ints (pos 1, (pos 2, tt)) between

    prints :
        (divide_call n (made_client n net)).0
          ≡ throw (rpc (error_of ErrorCode.invalid_params "除数不能为 0"))
        → (unknown_call n between).0
          ≡ throw (rpc (error_of ErrorCode.method_not_found "方法不存在: method_not_exists"))
        → error_handling_main n net
          ≡ ok (
            err "捕获到 JSON-RPC 错误: 除数不能为 0 (code=-32602)"
                ∷ err "未知方法错误: 方法不存在: method_not_exists"
                ∷ [],
            0,
          )
    unfolding error_handling_main divide_lines unknown_lines error_of to_string
    prints h k = ground arith

    -- Against the calculator, the program prints the server's two messages and ends with exit code
    -- 0: if the first request reaches a session of a server that offers the calculator's functions,
    -- the second one of such a server that has no method of its name, and the network delivers what
    -- these sessions write; and if the texts of the two requests and of their responses are read
    -- back as written.
    pub error_handling_main-prints :
        (m : Arithmetic) {W : Type 0} (g : Registry W) (w w1 w2 : W) (fresh1 fresh2 : Bool)
        (req1 req2 : HttpRequest) (res1 res2 : HttpResponse)
        → Offers m g
        → find_entry "method_not_exists" g.methods ≡ none
        → IsStable (request_value first.0)
        → IsJsonPost req1
        → req1.body ≡ serialize_request first.0
        → Processes fresh1 g req1 w res1 w1
        → (exchange n (serialize_request first.0) (create_session first.1)).0 ≡ done res1.body
        → IsStable (
            response_value (
              failure
                (error_of ErrorCode.invalid_params "除数不能为 0")
                (value (int64 (made_client n net).next_id))))
        → IsStable (request_value second.0)
        → IsJsonPost req2
        → req2.body ≡ serialize_request second.0
        → Processes fresh2 g req2 w1 res2 w2
        → (exchange n (serialize_request second.0) (create_session second.1)).0 ≡ done res2.body
        → IsStable (
            response_value (
              failure
                (error_of ErrorCode.method_not_found "方法不存在: method_not_exists")
                (value (int64 between.next_id))))
        → error_handling_main n net
          ≡ ok (
            err "捕获到 JSON-RPC 错误: 除数不能为 0 (code=-32602)"
                ∷ err "未知方法错误: 方法不存在: method_not_exists"
                ∷ [],
            0,
          )
    error_handling_main-prints m g w w1 w2 fresh1 fresh2 req1 req2 res1 res2 offers missing s1 p1 b1
          q1 x1 k1 s2 p2 b2 q2 x2 k2 =
        prints
          (divide_by_zero m n g (made_client n net) offers (pos 10) (omega arith) int_converter
            fresh1 req1 w w1 res1 s1 p1 b1 q1 x1 k1).0
          (call_unknown two_ints (pos 1, (pos 2, tt)) int_converter "method_not_exists" n g between
            fresh2 req2 w1 w2 res2 refl s2 p2 b2 q2 x2 missing k2).0
