-- ===== src/ClientSession/Async/Once.antt =====
-- An asynchronous exchange against the synchronous one, and how often it passes on its outcome.
use jsonrpc_for_cpp.Asio.{Failure, Report, broken, done, Report-cases}
use jsonrpc_for_cpp.Json.{JsonLib}
use Prim.Native.String.{◌++◌ as append}
use jsonrpc_for_cpp.Prelude.{List, none, some, Option, String, ◌≡◌, inl, inr, refl}
use jsonrpc_for_cpp.Types.Response.{Response}
use jsonrpc_for_cpp.ClientSession.{
  Network, Session, build_request, log, write_request, exchange, write_sync, receive_sync,
}
use jsonrpc_for_cpp.ClientSession.Async.{
  send_request_async, do_connect, after_connect, do_write, after_write, do_read, after_read,
}

module _ ⦃J : JsonLib⦄ where
  module _ {N : Type 0} (n : Network N) where
    -- Two sessions that differ in what they logged and in the request that they built; neither
    -- has called back.
    pub record Agrees (called : List Response) (t u : Session N) : Type 0 where
      pub net : u.net ≡ t.net
      pub res : u.res ≡ t.res
      pub uncalled : t.called ≡ called
      pub silent : u.called ≡ called

    agrees :
        {called : List Response} {t u : Session N}
        → u.net ≡ t.net
        → u.res ≡ t.res
        → t.called ≡ called
        → u.called ≡ called
        → Agrees called t u
    agrees a b c d = record { net = a; res = b; uncalled = c; silent = d }

    module _ {R : Type 0} where
      -- The one call of a continuation that an outcome leads to.
      abbrev pub handle : (Option Failure → String → Session N → R) → Report String → Session N → R
      handle callback (done text) u = callback none text u
      handle callback (broken ec) u = callback (some ec) "" u

      -- The continuation is run once, at a session that agrees with the one that is left.
      abbrev pub Handles :
          List Response
          → (Option Failure → String → Session N → R)
          → Report String × Session N
          → R
          → Type 0
      Handles called callback (outcome, t) r =
          (u : Session N) × Agrees called t u × (r ≡ handle callback outcome u)

      reads :
          (callback : Option Failure → String → Session N → R) (s : Session N)
          → Handles s.called callback (receive_sync n s) (do_read n (after_read n callback) s)
      unfolding after_read log receive_sync do_read
      reads callback s = elim (Report-cases (n.read (n.expires_after s.timeout s.net)).0) [
        | inl (text, h) ↦
            rw (h, receive_sync, do_read)
              (
                record s {
                  net = n.shutdown (n.read (n.expires_after s.timeout s.net)).1;
                  res = text;
                },
                agrees refl refl refl refl,
                refl,
              )
        | inr (ec, h) ↦
            rw (h, receive_sync, do_read)
              (
                log (append "读取响应失败: " ec.message) (
                    log (append "读取响应失败: " ec.message)
                      (record s { net = (n.read (n.expires_after s.timeout s.net)).1; res = "" })),
                agrees refl refl refl refl,
                refl,
              )
      ]

      writes :
          (body : String) (callback : Option Failure → String → Session N → R) (s : Session N)
          → Handles s.called callback
              (write_sync n body s)
              (do_write n (after_write n callback) (build_request body s))
      unfolding after_write log write_sync do_write build_request
      writes body callback s =
          let post = (build_request body s) in
          elim (Report-cases (write_request n post.req (n.expires_after post.timeout post.net)).0) [
            | inl (sent, h) ↦
                rw (h, write_sync, do_write)
                  (reads callback (record post {
                    net = (write_request n post.req (n.expires_after post.timeout post.net)).1;
                  }))
            | inr (ec, h) ↦
                rw (h, write_sync, do_write)
                  (
                    log (append "写入请求失败: " ec.message) (
                        log (append "写入请求失败: " ec.message) (record post {
                          net =
                              (write_request n post.req (n.expires_after post.timeout post.net)).1;
                        })),
                    agrees refl refl refl refl,
                    refl,
                  )
          ]

      -- Sending asynchronously gives what its continuation gives when it is run once, with the
      -- outcome of the synchronous exchange, in a session with the same network and response as
      -- that leaves and with nothing called back yet.
      pub send_request_async-exchange :
          (body : String) (callback : Option Failure → String → Session N → R) (s : Session N)
          → Handles s.called callback (exchange n body s) (send_request_async n body callback s)
      unfolding send_request_async do_connect after_connect exchange log build_request
      send_request_async-exchange body callback s =
          elim (Report-cases (n.resolve s.host s.port s.net).0) [
            | inr (ec, h) ↦
                rw (h, exchange, do_connect)
                  (
                    log (append "连接失败: " ec.message) (
                        log (append "解析域名失败: " ec.message) (record (build_request body s) {
                          net = (n.resolve s.host s.port s.net).1;
                        })),
                    agrees refl refl refl refl,
                    refl,
                  )
            | inl (endpoints, h) ↦
                elim (Report-cases
                  (n.connect endpoints
                    (n.expires_after s.timeout (n.resolve s.host s.port s.net).1)).0) [
                      | inr (ec, k) ↦
                          rw (h, k, exchange, do_connect)
                            (
                              log (append "连接失败: " ec.message) (
                                  log (append "连接失败: " ec.message) (record (build_request body s) {
                                    net =
                                        (n.connect endpoints (
                                          n.expires_after s.timeout
                                            (n.resolve s.host s.port s.net).1)).1;
                                  })),
                              agrees refl refl refl refl,
                              refl,
                            )
                      | inl (linked, k) ↦
                          rw (h, k, exchange, do_connect)
                            (writes body callback (record s {
                              net =
                                  (n.connect endpoints (
                                    n.expires_after s.timeout (n.resolve s.host s.port s.net).1)).1;
                            }))
                    ]
          ]
