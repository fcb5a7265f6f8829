-- ===== src/ServerSession.antt =====
-- include/jsonrpc/detail/server_session.hpp and impl/server_session.ipp: one client connection.
-- Of an HTTP message the model keeps what the code reads and writes. Boost.Beast's default for
-- `keep_alive()` of a fresh response is a parameter.
pub mod Receives
pub mod Replies
pub mod Lifecycle
use jsonrpc_for_cpp.Registry.Batch.{BatchReturns}
use jsonrpc_for_cpp.Protocol.{
  parse_request, serialize_batch_response, is_batch_request, serialize_response,
}
use jsonrpc_for_cpp.Registry.{Registry}
use jsonrpc_for_cpp.Results.{Exception, ok, throw, rpc, std_exception, foreign}
use jsonrpc_for_cpp.Errors.{Error}
use jsonrpc_for_cpp.Json.{JsonLib, parsed, failed, null_value}
use Prim.Native.String.{◌++◌ as append}
use text.Mathlib.Text.{find?}
use jsonrpc_for_cpp.Prelude.{
  List, [], ◌∷◌, none, some, Bool, Option, String, false, if◌then◌else◌, not, true, ◌≡◌, ltb,
  length, ◌||◌,
}
use jsonrpc_for_cpp.Types.Request.{Request}
use jsonrpc_for_cpp.Types.Response.{Response, error, failure}

pub data Status : Type 0 where
  status_ok no_content method_not_allowed unsupported_media_type : Status

-- `req_`; `is_post` is `method() == verb::post`.
pub record HttpRequest : Type 0 where
  pub is_post : Bool
  pub content_type : String
  pub keep_alive : Bool
  pub body : String

-- `res_`
pub record HttpResponse : Type 0 where
  pub status : Status
  pub content_type : Option String
  pub keep_alive : Bool
  pub body : String

-- `text.find(part) != npos`
abbrev pub contains_text : String → String → Bool
contains_text text part = elim (find? text part) [ none ↦ false | some at ↦ true ]

module _ ⦃J : JsonLib⦄ where
  open J use {Value, parse}

  -- What `process_request` knows before it calls the methods: an answer that it writes at once,
  -- with the message that it logs; the requests; or an exception that leaves the handler.
  pub data Received : Type 0 where
    answers : String → HttpResponse → Received
    calls_for : List Request → Bool → Received
    escapes : Exception → Received

  -- `Protocol::is_batch_request(boost::json::parse(body))`, of a text that was parsed before.
  abbrev pub is_batch_text : String → Bool
  is_batch_text body = elim (parse body) [ parsed jv ↦ is_batch_request jv | failed what ↦ false ]

  module _ (fresh_keep_alive : Bool) where
    abbrev pub plain_response : Status → String → HttpResponse
    plain_response status body = record {
      status = status;
      content_type = some "text/plain";
      keep_alive = fresh_keep_alive;
      body = body;
    }

    -- The answer to a text that is no request.
    unfoldable pub error_reply : Error → HttpResponse
    error_reply e = record {
      status = status_ok;
      content_type = some "application/json";
      keep_alive = fresh_keep_alive;
      body = serialize_response (failure e null_value);
    }

    unfoldable pub receive_body : String → Received
    unfolding error_reply
    receive_body body = elim (parse_request body) [
      | ok requests ↦ calls_for requests (ltb 1 (length requests) || is_batch_text body)
      | throw (rpc e) ↦ answers (append "解析请求失败: " e.what) (error_reply e)
      | throw (std_exception what) ↦ escapes (std_exception what)
      | throw foreign ↦ escapes foreign
    ]

    -- `process_request` up to the call of the methods.
    unfoldable pub receive : HttpRequest → Received
    unfolding receive_body
    receive req =
        if not req.is_post
        then answers "收到非 POST 请求" (plain_response method_not_allowed "仅支持 POST 方法")
        else if not (contains_text req.content_type "application/json")
        then answers (append "Content-Type 无效: " req.content_type)
            (plain_response unsupported_media_type "Content-Type 必须是 application/json")
        else receive_body req.body

  -- The response to a request whose methods have answered.
  unfoldable pub reply : HttpRequest → Bool → List Response → HttpResponse
  reply req true responses = record {
    status = status_ok;
    content_type = some "application/json";
    keep_alive = req.keep_alive;
    body = serialize_batch_response responses;
  }
  reply req false (response ∷ rest) = record {
    status = status_ok;
    content_type = some "application/json";
    keep_alive = req.keep_alive;
    body = serialize_response response;
  }
  reply req false [] = record {
    status = no_content;
    content_type = some "application/json";
    keep_alive = req.keep_alive;
    body = "";
  }

  module _ {W : Type 0} (fresh_keep_alive : Bool) (g : Registry W) where
    -- What `process_request` may write, and the state that the methods leave.
    pub data Processes (req : HttpRequest) (w : W) (res : HttpResponse) (w' : W) : Type 0 where
      refused :
          (message : String)
          → receive fresh_keep_alive req ≡ answers message res
          → w' ≡ w
          → Processes req w res w'
      served :
          (requests : List Request) (is_batch : Bool) (responses : List Response)
          → receive fresh_keep_alive req ≡ calls_for requests is_batch
          → BatchReturns g requests w responses w'
          → res ≡ reply req is_batch responses
          → Processes req w res w'
