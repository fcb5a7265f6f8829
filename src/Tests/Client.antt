-- ===== src/Tests/Client.antt =====
-- A client that calls `add` on the server of the other tests.
use native.Mathlib.Omega.{arith}
use jsonrpc_for_cpp.Protocol.RoundTrip.{Sound}
use jsonrpc_for_cpp.Asio.{Report}
use jsonrpc_for_cpp.Types.Response
use jsonrpc_for_cpp.Registry.Batch.Sorted.{Answers}
use jsonrpc_for_cpp.IndexSequence.{elements_at, make_index_sequence}
use jsonrpc_for_cpp.Client.Batch.{call_batch-AnswersAll}
use jsonrpc_for_cpp.Wrapper.{wrap}
use jsonrpc_for_cpp.Registry.Batch.Order.{AnswersAll, calls}
use jsonrpc_for_cpp.Client.EventLoop.{
  IoContext, idle_loop, run_until_idle, Drains, run_until_idle-Drains,
}
use jsonrpc_for_cpp.Prelude.{
  List, map, [], ◌∷◌, ◌≡◌, refl, false, true, ◌^◌, ◌-◌, ℕ, suc, some, zero, All, subst, sym, ◌<◌,
  ◌%◌,
}
use jsonrpc_for_cpp.Prelude.Int.{pos, negsuc, to_int32, to_string}
use jsonrpc_for_cpp.Results.{ok, Result, ◌>>=◌}
use jsonrpc_for_cpp.Json.{IsStable}
use jsonrpc_for_cpp.Protocol.{response_value, serialize_request, serialize_batch_request}
use jsonrpc_for_cpp.Converter.{int_converter, int_from_json}
use jsonrpc_for_cpp.Registry.{find_entry, register_method, set_entry, new_registry, invoke}
use jsonrpc_for_cpp.Registry.Batch.{batch_responses, task_response, BatchReturns}
use jsonrpc_for_cpp.ServerSession.{HttpResponse, reply}
use jsonrpc_for_cpp.ClientSession.{
  Post, exchange, write_sync, receive_sync, write_request, build_request,
}
use jsonrpc_for_cpp.Client.{Client, call, next_int64, typed_request, create_session, call_batch}
use jsonrpc_for_cpp.Client.Remote.{call-wrap}
use jsonrpc_for_cpp.Types.Request.{request_of}
use jsonrpc_for_cpp.Types.Response.{success, Response}
use jsonrpc_for_cpp.Converter.Args.{pack_args, extract_args, convert_args}
use jsonrpc_for_cpp.Tests.Sample.{array, cons, nil, of_list, sample_json, parse_tree, print_tree}
use jsonrpc_for_cpp.Tests.Types.{add_request, log_request}
use jsonrpc_for_cpp.Tests.Converter.{int_param, add}
use jsonrpc_for_cpp.Tests.Registry.{adder, batch, add_counted}
use jsonrpc_for_cpp.Tests.Protocol.{
  add_request-IsStable, sum_response-IsStable, sum_response-Sound, batch-Sendable, batch-IsStable,
  sum_response,
}
use jsonrpc_for_cpp.Tests.ServerSession.{
  post, post-IsJsonPost, call_processed, done, batch_processed,
}
use jsonrpc_for_cpp.Tests.ClientSession.{fixed}

abbrev client : Client (List Post)
client = record {
  host = "127.0.0.1";
  port = "8080";
  timeout = pos 30000;
  logger = true;
  next_id = pos 1;
  net = [];
  logs = [];
  called = [];
}

abbrev answer : HttpResponse
answer = reply (post (serialize_request add_request)) false (batch_responses (done add_request))

call-wrap_example :
    ((call
        (fixed answer.body)
        int_converter
        "add"
        (int_param ∷ int_param ∷ [])
        (pos 2, (pos 3, tt))
        client).0
      ≡ ok (pos 5))
    × ((done add_request).world ≡ 1)
unfolding typed_request request_of find_entry register_method set_entry new_registry int_from_json
    to_int32 success exchange write_sync receive_sync write_request build_request pack_args
call-wrap_example =
    call-wrap (int_param ∷ int_param ∷ []) (pos 2, (pos 3, tt)) int_converter "add"
      (fixed answer.body) adder client true (post (serialize_request add_request)) 0
      (done add_request).world answer refl add_request-IsStable
      (post-IsJsonPost (serialize_request add_request)) refl call_processed refl add
      int_converter.to_json (pos 5) (pos 5) 1 refl (refl, (refl, tt)) refl refl
      sum_response-IsStable

id_wraps : next_int64 (pos (2 ^ 63 - 1)) ≡ negsuc (2 ^ 63 - 1)
id_wraps = refl

-- A batch of a call and a notification.
abbrev batch_reply : HttpResponse
batch_reply = reply (post (serialize_batch_request batch)) true (batch_responses add_counted)

batch_sent :
    (exchange (fixed batch_reply.body) (serialize_batch_request batch) (create_session client)).0
    ≡ Report.done batch_reply.body
unfolding exchange write_sync receive_sync write_request build_request create_session
batch_sent = refl

answer_is_sum : (x : Response) → Answers adder add_request x → x ≡ sum_response
unfolding task_response invoke register_method new_registry wrap extract_args convert_args
    int_from_json to_int32 success elements_at make_index_sequence
answer_is_sum x (w, e) = e

sum_readable : IsStable (array (cons (response_value sum_response) nil))
unfolding Response.to_json parse_tree print_tree to_string
sum_readable = refl

batch_readable :
    (xs : List Response)
    → AnswersAll adder (calls batch) xs
    → All Sound xs × IsStable (array (of_list (map response_value xs)))
batch_readable [] h = elim h [ ]
batch_readable (x ∷ y ∷ xs) h = elim h.1 [ ]
batch_readable (x ∷ []) (h, _) =
    subst (λ z. All Sound (z ∷ []) × IsStable (array (cons (response_value z) nil)))
      (sym (answer_is_sum x h)) ((sum_response-Sound, tt), sum_readable)

call_batch-AnswersAll_example :
    (xs : List Response) × BatchReturns adder batch 0 xs add_counted.world
    × AnswersAll adder (calls batch) xs
    × ((call_batch (fixed batch_reply.body) batch client).0 ≡ ok xs)
call_batch-AnswersAll_example =
    call_batch-AnswersAll (fixed batch_reply.body) adder true client add_request (log_request ∷ [])
      (post (serialize_batch_request batch)) 0 add_counted.world batch_reply batch-Sendable
      batch-IsStable (post-IsJsonPost (serialize_batch_request batch)) refl batch_processed
      batch_sent batch_readable

-- An event loop with a number of handlers that are ready, of which a poll runs two at most.
abbrev poll_two : ℕ → Result ℕ × ℕ
poll_two zero = (ok 0, 0)
poll_two (suc zero) = (ok 1, 0)
poll_two (suc (suc n)) = (ok 2, n)

abbrev ready : IoContext ℕ
ready = record {
  Duration = Unit {0};
  run = λ n. (ok tt, 0);
  poll = poll_two;
  run_for = λ _ n. (ok n, 0);
}

poll_falls : (n k n' : ℕ) → poll_two n ≡ (ok (suc k), n') → n' < n
poll_falls zero k n' h = absurd (ground arith)
poll_falls (suc zero) k n' h = ground arith
poll_falls (suc (suc n)) k n' h = ground arith

run_until_idle-Drains_example :
    (total : ℕ) × (end : Result (Unit {0})) × (last : ℕ) × Drains ready total end 5 last
    × (run_until_idle ready 9 5 ≡ some ((end >>= λ u. ok (total % 2 ^ 64)), last))
run_until_idle-Drains_example = run_until_idle-Drains ready (λ n. n) poll_falls 9 5 (omega arith)

drains_five : run_until_idle ready 9 5 ≡ some (ok 5, 0)
unfolding idle_loop
drains_five = refl
