-- ===== src/ClientSession/Async.antt =====
-- The asynchronous call of include/jsonrpc/impl/client_session.ipp: each operation passes on to a
-- continuation, whose answer, of the type `R`, is what is left when the event loop has run it.
pub mod Once
pub mod Callback
use jsonrpc_for_cpp.Asio.{Failure, broken, done}
use jsonrpc_for_cpp.Protocol.{serialize_request, parse_response}
use jsonrpc_for_cpp.Results.{Result, ok, throw, rpc}
use jsonrpc_for_cpp.Errors.{error_of}
use jsonrpc_for_cpp.Errors.ErrorCode
use jsonrpc_for_cpp.Json.{JsonLib, null_value}
use Prim.Native.String.{◌++◌ as append}
use jsonrpc_for_cpp.Prelude.{[], ◌∷◌, ◌++◌, none, some, Option, String}
use jsonrpc_for_cpp.Types.Request.{Request}
use jsonrpc_for_cpp.Types.Response.{Response, failure}
use jsonrpc_for_cpp.ClientSession.{Network, Session, build_request, log, write_request}

module _ ⦃J : JsonLib⦄ where
  module _ {N : Type 0} (n : Network N) where
    module _ {R : Type 0} where
      unfoldable pub do_connect : (Option Failure → Session N → R) → Session N → R
      unfolding log
      do_connect callback s =
          let (results, resolved) = n.resolve s.host s.port s.net in
          elim results [
            | broken ec ↦
                callback (some ec)
                  (log (append "解析域名失败: " ec.message) (record s { net = resolved }))
            | done endpoints ↦
                (let (linked, net) = n.connect endpoints (n.expires_after s.timeout resolved) in
                  elim linked [
                    | broken ec ↦
                        callback (some ec)
                          (log (append "连接失败: " ec.message) (record s { net = net }))
                    | done _ ↦ callback none (record s { net = net })
                  ])
          ]

      unfoldable pub do_write : (Option Failure → Session N → R) → Session N → R
      unfolding log write_request
      do_write callback s =
          let (sent, net) = write_request n s.req (n.expires_after s.timeout s.net) in
          elim sent [
            | broken ec ↦
                callback (some ec) (log (append "写入请求失败: " ec.message) (record s { net = net }))
            | done _ ↦ callback none (record s { net = net })
          ]

      unfoldable pub do_read : (Option Failure → Session N → R) → Session N → R
      unfolding log
      do_read callback s =
          let (body, net) = n.read (n.expires_after s.timeout s.net) in
          elim body [
            | broken ec ↦
                callback (some ec)
                  (log (append "读取响应失败: " ec.message) (record s { net = net; res = "" }))
            | done text ↦ callback none (record s { net = net; res = text })
          ]

      -- The three handlers of `send_request_async`, the last first.
      unfoldable pub after_read :
          (Option Failure → String → Session N → R) → Option Failure → Session N → R
      unfolding log
      after_read callback (some ec) s = callback (some ec) "" (log (append "读取响应失败: " ec.message) s)
      after_read callback none s = callback none s.res (record s { net = n.shutdown s.net })

      unfoldable pub after_write :
          (Option Failure → String → Session N → R) → Option Failure → Session N → R
      unfolding log do_read after_read
      after_write callback (some ec) s =
          callback (some ec) "" (log (append "写入请求失败: " ec.message) s)
      after_write callback none s = do_read (after_read callback) s

      unfoldable pub after_connect :
          (Option Failure → String → Session N → R) → Option Failure → Session N → R
      unfolding log do_write after_write
      after_connect callback (some ec) s =
          callback (some ec) "" (log (append "连接失败: " ec.message) s)
      after_connect callback none s = do_write (after_write callback) s

      unfoldable pub send_request_async :
          String → (Option Failure → String → Session N → R) → Session N → R
      unfolding build_request do_connect after_connect
      send_request_async body callback s =
          do_connect (after_connect callback) (build_request body s)

    -- The user's callback: the session notes its argument; it may throw.
    unfoldable pub call_back :
        (Response → Result (Unit {0})) → Response → Session N → Result (Unit {0}) × Session N
    call_back callback response s =
        (callback response, record s { called = s.called ++ response ∷ [] })

    -- The `catch` clause of the handler, which calls back again.
    unfoldable pub on_parse_error :
        (Response → Result (Unit {0}))
        → Result (Unit {0}) × Session N
        → Result (Unit {0}) × Session N
    unfolding call_back log
    on_parse_error callback (throw (rpc e), s) =
        call_back callback (failure e null_value) (log (append "解析响应失败: " e.what) s)
    on_parse_error callback (r, s) = (r, s)

    -- The handler that `async_call` passes to `send_request_async`.
    unfoldable pub on_response :
        (Response → Result (Unit {0}))
        → Option Failure
        → String
        → Session N
        → Result (Unit {0}) × Session N
    unfolding on_parse_error
    on_response callback (some ec) body s =
        call_back callback
          (failure (error_of ErrorCode.internal_error (append "网络错误: " ec.message)) null_value) s
    on_response callback none body s = on_parse_error callback (elim (parse_response body) [
      | ok response ↦ call_back callback response s
      | throw x ↦ (throw x, s)
    ])

    unfoldable pub async_call :
        Request → (Response → Result (Unit {0})) → Session N → Result (Unit {0}) × Session N
    unfolding send_request_async on_response
    async_call request callback s =
        send_request_async (serialize_request request) (on_response callback) s
