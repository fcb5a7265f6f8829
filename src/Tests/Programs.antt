-- ===== src/Tests/Programs.antt =====
-- The other example programs, and what holds of every call.
use jsonrpc_for_cpp.ServerSession.{HttpResponse}
use jsonrpc_for_cpp.Client.{call, create_session, new_client, Client, set_timeout, notify}
use jsonrpc_for_cpp.Client.Contract.{Promises, client_api, client_api-Promises}
use jsonrpc_for_cpp.Converter.{int_converter}
use jsonrpc_for_cpp.Examples.BatchRequest.{requests, numbered, batch_client, batch_main}
use jsonrpc_for_cpp.Examples.BatchRequest.Prints.{
  batch_main-prints, expected, answer_lines, requests-Sendable,
}
use jsonrpc_for_cpp.Examples.CalculatorClient.Ends.{Ends, client_main-Ends}
use jsonrpc_for_cpp.Examples.Retry.{retry_main}
use jsonrpc_for_cpp.Examples.Retry.Attempts.{Tried, retry_main-Tried}
use jsonrpc_for_cpp.Prelude.{String, List, [], ◌∷◌, ◌≡◌, refl, true, map}
use jsonrpc_for_cpp.Prelude.Int.{pos, to_string}
use jsonrpc_for_cpp.Json.{IsStable}
use jsonrpc_for_cpp.Protocol.{request_value, response_value, serialize_batch_request}
use jsonrpc_for_cpp.Results.{ok}
use jsonrpc_for_cpp.Types.Request
use jsonrpc_for_cpp.Types.Response
use jsonrpc_for_cpp.Types.Request.{Request, request_of}
use jsonrpc_for_cpp.Types.Response.{success}
use jsonrpc_for_cpp.Tests.Calculator.{
  scripted, calculator, calculator-Offers, arithmetic, floats, batch_answer, batch_processed, all,
  scripted_delivers,
}
use jsonrpc_for_cpp.Tests.Sample.{sample_json, array, of_list, parse_tree, print_tree}
use jsonrpc_for_cpp.Tests.ServerSession.{post, post-IsJsonPost}

abbrev fresh_client : Client (List String)
fresh_client = new_client "127.0.0.1" 8080 []

batch-IsStable : IsStable (array (of_list (map request_value requests)))
unfolding Request.to_json parse_tree print_tree to_string request_of numbered
batch-IsStable = refl

answers-IsStable : IsStable (array (of_list (map response_value expected)))
unfolding Response.to_json success parse_tree print_tree to_string
answers-IsStable = refl

abbrev batch_text : HttpResponse
batch_text =
    batch_answer (numbered "add" 1 2 1) (numbered "multiply" 3 5 2) (numbered "subtract" 20 4 3)

batch_main-prints_example : batch_main scripted (batch_text.body ∷ []) ≡ ok (answer_lines, 0)
batch_main-prints_example =
    batch_main-prints scripted (batch_text.body ∷ []) arithmetic calculator true
      (post (serialize_batch_request requests)) 0
      (all (numbered "add" 1 2 1) (numbered "multiply" 3 5 2) (numbered "subtract" 20 4 3)).world
      batch_text calculator-Offers batch-IsStable
      (post-IsJsonPost (serialize_batch_request requests)) refl
      (batch_processed (numbered "add" 1 2 1) (numbered "multiply" 3 5 2)
        (numbered "subtract" 20 4 3) requests-Sendable batch-IsStable)
      (scripted_delivers (serialize_batch_request requests) batch_text.body []
        (create_session (batch_client (batch_text.body ∷ [])))
        (unfold create_session new_client in refl)).0
      answers-IsStable

-- The network delivers no text, and so each attempt fails.
retry_main-Tried_example :
    Tried
      (client_api scripted)
      3
      (set_timeout (pos 500) (new_client "127.0.0.1" 9000 []))
      (retry_main (client_api scripted) [])
retry_main-Tried_example = retry_main-Tried scripted []

client_main-Ends_example : Ends floats (λ d. "8.4") scripted []
client_main-Ends_example = client_main-Ends floats (λ d. "8.4") scripted []

client_api-Promises_example : Promises (client_api scripted)
client_api-Promises_example = client_api-Promises scripted

-- A call and a notification.
abbrev used : Client (List String)
used = notify scripted "log" [] tt (call scripted int_converter "ping" [] tt fresh_client).1
