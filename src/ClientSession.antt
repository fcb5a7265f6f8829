-- ===== src/ClientSession.antt =====
-- include/jsonrpc/detail/client_session.hpp and impl/client_session.ipp: one exchange of a client.
-- The network is a parameter; that a timeout has passed is one of the failures that it reports.
-- Waiting is not modelled: an asynchronous operation runs its handler with what the network
-- reports.
pub mod Async
pub mod Pending
use jsonrpc_for_cpp.Prelude.Int.{ℤ}
use jsonrpc_for_cpp.Asio.{Failure, Report, done, broken}
use jsonrpc_for_cpp.Protocol.{
  serialize_request, serialize_batch_request, parse_response, parse_batch_response,
}
use jsonrpc_for_cpp.Results.{Result, ok, throw, rpc}
use jsonrpc_for_cpp.Errors.{error_of}
use jsonrpc_for_cpp.Errors.ErrorCode
use jsonrpc_for_cpp.Json.{JsonLib, null_value}
use Prim.Native.String.{◌++◌ as append}
use jsonrpc_for_cpp.Prelude.{
  List, [], ◌∷◌, ◌++◌, none, some, Option, String, ℕ, if◌then◌else◌, Bool,
}
use jsonrpc_for_cpp.Types.Request.{Request}
use jsonrpc_for_cpp.Types.Response.{Response, failure}

-- `req_`
pub record Post : Type 0 where
  pub version : ℕ
  pub target : String
  pub host : String
  pub content_type : String
  pub user_agent : String
  pub body : String

-- The operations of the resolver and of one stream, over their state. `expires_after` takes
-- milliseconds; `read` gives the body of the response.
pub record Network (N : Type 0) : Type 1 where
  pub Endpoints : Type 0
  pub expires_after : ℤ → N → N
  pub resolve : String → String → N → Report Endpoints × N
  pub connect : Endpoints → N → Report (Unit {0}) × N
  pub write : Post → N → Report (Unit {0}) × N
  pub read : N → Report String × N
  pub shutdown : N → N

module _ ⦃J : JsonLib⦄ where
  -- The state of a session, with what it logs and what it passes to the user's callback. `res` is
  -- the body of `res_`, and `logger` tells whether there is one.
  pub record Session (N : Type 0) : Type 0 where
    pub net : N
    pub host : String
    pub port : String
    pub timeout : ℤ
    pub logger : Bool
    pub req : Option Post
    pub res : String
    pub logs : List String
    pub called : List Response

  module _ {N : Type 0} where
    -- The constructor, in what the client that makes it has logged and called back so far.
    abbrev pub new_session :
        String → String → ℤ → Bool → N → List String → List Response → Session N
    new_session host port timeout logger net logs called = record {
      net = net;
      host = host;
      port = port;
      timeout = timeout;
      logger = logger;
      req = none;
      res = "";
      logs = logs;
      called = called;
    }

    unfoldable pub log : String → Session N → Session N
    log message s = record s { logs = if s.logger then s.logs ++ message ∷ [] else s.logs }

    -- The request that both ways of sending build.
    unfoldable pub build_request : String → Session N → Session N
    build_request body s = record s {
      req = some (record {
        version = 11;
        target = "/";
        host = s.host;
        content_type = "application/json";
        user_agent = "jsonrpc-client";
        body = body;
      });
    }

    module _ (n : Network N) where
      -- `write`, of the request that was built.
      unfoldable pub write_request : Option Post → N → Report (Unit {0}) × N
      write_request none net = (done tt, net)
      write_request (some post) net = n.write post net

      -- The `try` block of `send_request_sync`: it ends at the first failure.
      unfoldable pub receive_sync : Session N → Report String × Session N
      receive_sync s =
          let (body, net) = n.read (n.expires_after s.timeout s.net) in
          elim body [
            | broken failed ↦ (broken failed, record s { net = net; res = "" })
            | done text ↦ (done text, record s { net = n.shutdown net; res = text })
          ]

      unfoldable pub write_sync : String → Session N → Report String × Session N
      unfolding build_request write_request receive_sync
      write_sync body s =
          let t = build_request body s in
          let (sent, net) = write_request t.req (n.expires_after t.timeout t.net) in
          elim sent [
            | broken failed ↦ (broken failed, record t { net = net })
            | done _ ↦ receive_sync (record t { net = net })
          ]

      unfoldable pub exchange : String → Session N → Report String × Session N
      unfolding write_sync
      exchange body s =
          let (results, resolved) = n.resolve s.host s.port s.net in
          elim results [
            | broken failed ↦ (broken failed, record s { net = resolved })
            | done endpoints ↦
                (let (linked, net) = n.connect endpoints (n.expires_after s.timeout resolved) in
                  elim linked [
                    | broken failed ↦ (broken failed, record s { net = net })
                    | done _ ↦ write_sync body (record s { net = net })
                  ])
          ]

      unfoldable pub send_request_sync : String → Session N → Result String × Session N
      unfolding exchange log
      send_request_sync body s =
          let (outcome, t) = exchange body s in
          elim outcome [
            | done text ↦ (ok text, t)
            | broken failed ↦ (
              throw (rpc (error_of ErrorCode.internal_error (append "网络错误: " failed.what))),
              log (append "网络错误: " failed.what) t,
            )
          ]

      -- The parsing of a response, with the `catch` clause that logs.
      unfoldable pub parsed_or_logged :
          {A : Type 0} → String → Result A → Session N → Result A × Session N
      unfolding log
      parsed_or_logged prefix (ok a) s = (ok a, s)
      parsed_or_logged prefix (throw (rpc e)) s = (throw (rpc e), log (append prefix e.what) s)
      parsed_or_logged prefix (throw x) s = (throw x, s)

      unfoldable pub call : Request → Session N → Result Response × Session N
      unfolding send_request_sync parsed_or_logged
      call request s =
          let (sent, t) = send_request_sync (serialize_request request) s in
          elim sent [
            | ok body ↦ parsed_or_logged "解析响应失败: " (parse_response body) t
            | throw x ↦ (throw x, t)
          ]

      unfoldable pub call_batch : List Request → Session N → Result (List Response) × Session N
      unfolding send_request_sync parsed_or_logged
      call_batch requests s =
          let (sent, t) = send_request_sync (serialize_batch_request requests) s in
          elim sent [
            | ok body ↦ parsed_or_logged "解析批量响应失败: " (parse_batch_response body) t
            | throw x ↦ (throw x, t)
          ]

      -- The request of a notification is sent as a call is; what is thrown is dropped.
      unfoldable pub notify : Request → Session N → Session N
      unfolding send_request_sync
      notify request s = (send_request_sync (serialize_request request) s).1
