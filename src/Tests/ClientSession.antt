-- ===== src/Tests/ClientSession.antt =====
-- The client session over a network that always answers with the same text.
use jsonrpc_for_cpp.Prelude.Int.{pos}
use jsonrpc_for_cpp.Asio.{done}
use jsonrpc_for_cpp.Prelude.{List, [], ◌∷◌, none, String, ◌≡◌, refl, true}
use jsonrpc_for_cpp.Errors.{Error, error_of}
use jsonrpc_for_cpp.Errors.ErrorCode
use jsonrpc_for_cpp.Results.{Result, ok, throw, rpc, foreign}
use jsonrpc_for_cpp.Protocol.{serialize_request, serialize_response, parse_response}
use jsonrpc_for_cpp.Protocol.RoundTrip.{parse_response-serialize_response}
use jsonrpc_for_cpp.Types.Response.{Response, failure}
use jsonrpc_for_cpp.ClientSession.{
  Post, Network, Session, exchange, write_sync, receive_sync, write_request, build_request,
}
use jsonrpc_for_cpp.ClientSession.Async.{async_call}
use jsonrpc_for_cpp.ClientSession.Async.Callback.{async_call-throw}
use jsonrpc_for_cpp.Tests.Types.{add_request}
use jsonrpc_for_cpp.Tests.Protocol.{sum_response, sum_response-Sound, sum_response-IsStable}
use jsonrpc_for_cpp.Tests.Sample.{sample_json, null}

-- Its state is what was written.
abbrev pub fixed : String → Network (List Post)
fixed text = record {
  Endpoints = Unit {0};
  expires_after = λ timeout posts. posts;
  resolve = λ host port posts. (done tt, posts);
  connect = λ endpoints posts. (done tt, posts);
  write = λ post posts. (done tt, post ∷ posts);
  read = λ posts. (done text, posts);
  shutdown = λ posts. posts;
}

abbrev pub session : Session (List Post)
session = record {
  net = [];
  host = "127.0.0.1";
  port = "8080";
  timeout = pos 30000;
  logger = true;
  req = none;
  res = "";
  logs = [];
  called = [];
}

abbrev answer_text : String
answer_text = serialize_response sum_response

exchanged :
    (text : String) → (exchange (fixed text) (serialize_request add_request) session).0 ≡ done text
unfolding exchange write_sync receive_sync write_request build_request
exchanged text = refl

abbrev quiet : Response → Result (Unit {0})
quiet x = throw foreign

abbrev rude : Error
rude = error_of ErrorCode.server_error "no"

reads_sum : parse_response answer_text ≡ ok sum_response
reads_sum = parse_response-serialize_response sum_response sum_response-Sound sum_response-IsStable

async_call-throw_example :
    (async_call (fixed answer_text) add_request (λ x. throw (rpc rude)) session).1.called
    ≡ sum_response ∷ failure rude null ∷ []
async_call-throw_example =
    async_call-throw (fixed answer_text) (λ x. throw (rpc rude)) add_request session answer_text
      sum_response rude (exchanged answer_text) reads_sum refl
