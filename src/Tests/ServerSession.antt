-- ===== src/Tests/ServerSession.antt =====
-- The server session at concrete HTTP messages.
use jsonrpc_for_cpp.Tests.Protocol.{
  add_request-Sendable, log_request-Sendable, add_request-IsStable, batch-Sendable,
  log_request-IsStable, batch-IsStable,
}
use jsonrpc_for_cpp.Tests.Types.{add_request, log_request}
use jsonrpc_for_cpp.ServerSession.Receives.{IsJsonPost, receive-single, receive-batch}
use jsonrpc_for_cpp.Registry.Batch.Order.{AnswersAll, calls}
use jsonrpc_for_cpp.Protocol.{serialize_batch_request, serialize_request, serialize_batch_response}
use jsonrpc_for_cpp.Tests.Registry.{adder, batch, add_counted, batch_returns}
use jsonrpc_for_cpp.Types.Response.{Response}
use jsonrpc_for_cpp.Types.Request.{Request}
use jsonrpc_for_cpp.ServerSession.Replies.{IsAnswered, Processes-IsAnswered, Processes-batch}
use jsonrpc_for_cpp.Errors.{Error, error_of}
use jsonrpc_for_cpp.Prelude.{true, false, List, [], ◌∷◌, some, ◌≡◌, refl, String, ℕ}
use jsonrpc_for_cpp.Errors.ErrorCode
use jsonrpc_for_cpp.Registry.Batch.{
  here, next, runs, counts, waited, BatchReturns, BatchState, batch_responses, count_task, run_task,
  Run, start_batch,
}
use jsonrpc_for_cpp.Tests.Sample.{sample_json}
use jsonrpc_for_cpp.ServerSession.Lifecycle.{Session, start, do_write}
use jsonrpc_for_cpp.ServerSession.{
  HttpRequest, Processes, refused, served, receive, reply, plain_response, answers,
  method_not_allowed, status_ok,
}

abbrev pub post : String → HttpRequest
post body = record {
  is_post = true;
  content_type = "application/json; charset=utf-8";
  keep_alive = false;
  body = body;
}

pub post-IsJsonPost : (body : String) → IsJsonPost (post body)
post-IsJsonPost body = record { post = refl; json = refl }

-- A batch of a call and a notification, whose tasks ran out of order.
pub batch_processed :
    Processes true adder
      (post (serialize_batch_request batch))
      0
      (reply (post (serialize_batch_request batch)) true (batch_responses add_counted))
      add_counted.world
batch_processed =
    served batch true (batch_responses add_counted)
      (receive-batch true (post (serialize_batch_request batch)) add_request (log_request ∷ [])
        (post-IsJsonPost (serialize_batch_request batch)) batch-Sendable batch-IsStable refl)
      batch_returns refl

Processes-batch_example :
    (responses : List Response) × BatchReturns adder batch 0 responses add_counted.world
    × AnswersAll adder (calls batch) responses
    × (reply (post (serialize_batch_request batch)) true (batch_responses add_counted) ≡ record {
      status = status_ok;
      content_type = some "application/json";
      keep_alive = false;
      body = serialize_batch_response responses;
    })
Processes-batch_example =
    Processes-batch true adder (post (serialize_batch_request batch)) add_request (log_request ∷ [])
      0 add_counted.world
      (reply (post (serialize_batch_request batch)) true (batch_responses add_counted))
      (post-IsJsonPost (serialize_batch_request batch)) batch-Sendable batch-IsStable refl
      batch_processed

-- One request, run by itself.
module _ (r : Request) where
  abbrev ran : BatchState ℕ
  ran = run_task adder 0 r (start_batch (r ∷ []) 0)

  abbrev pub done : BatchState ℕ
  done = count_task 0 ran

  alone_returns : BatchReturns adder (r ∷ []) 0 (batch_responses done) done.world
  alone_returns = waited (λ e. cc) steps kept refl refl
    where
      steps : Run adder (r ∷ []) (start_batch (r ∷ []) 0) 2 done
      steps =
          unfold start_batch run_task count_task in
          next (next here (runs 0 r refl refl refl)) (counts 0 refl refl)

      kept : done.completions ≡ 1
      kept = unfold start_batch run_task count_task in refl

pub call_processed :
    Processes true adder
      (post (serialize_request add_request))
      0
      (reply (post (serialize_request add_request)) false (batch_responses (done add_request)))
      (done add_request).world
call_processed =
    served (add_request ∷ []) false (batch_responses (done add_request))
      (receive-single true (post (serialize_request add_request)) add_request
        (post-IsJsonPost (serialize_request add_request)) add_request-Sendable add_request-IsStable
        refl)
      (alone_returns add_request) refl

Processes-IsAnswered_example :
    IsAnswered true adder
      (post (serialize_request add_request))
      add_request
      0
      (done add_request).world
      (reply (post (serialize_request add_request)) false (batch_responses (done add_request)))
Processes-IsAnswered_example =
    Processes-IsAnswered true adder (post (serialize_request add_request)) add_request 0
      (done add_request).world
      (reply (post (serialize_request add_request)) false (batch_responses (done add_request)))
      (post-IsJsonPost (serialize_request add_request)) add_request-Sendable add_request-IsStable
      refl refl call_processed

notification_processed :
    Processes true adder
      (post (serialize_request log_request))
      0
      (reply (post (serialize_request log_request)) false (batch_responses (done log_request)))
      (done log_request).world
notification_processed =
    served (log_request ∷ []) false (batch_responses (done log_request))
      (receive-single true (post (serialize_request log_request)) log_request
        (post-IsJsonPost (serialize_request log_request)) log_request-Sendable log_request-IsStable
        refl)
      (alone_returns log_request) refl

abbrev syntax_error : Error
syntax_error = error_of ErrorCode.parse_error "JSON 解析失败: syntax error"

abbrev page : HttpRequest
page = record { is_post = false; content_type = "application/json"; keep_alive = true; body = "" }

page_refused : Processes true adder page 0 (plain_response true method_not_allowed "仅支持 POST 方法") 0
page_refused = refused "收到非 POST 请求" logged refl
  where
    logged :
        receive true page
        ≡ answers "收到非 POST 请求" (plain_response true method_not_allowed "仅支持 POST 方法")
    logged = unfold receive in refl

-- Two clients connect; the session of the second answers a call and reads on.
abbrev answered : Session ℕ
answered =
    do_write true (post (serialize_request add_request))
      (reply (post (serialize_request add_request)) false (batch_responses (done add_request)))
      (done add_request).world (start true 0)
