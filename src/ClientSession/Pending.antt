-- ===== src/ClientSession/Pending.antt =====
-- The handlers of `send_request_async` in include/jsonrpc/impl/client_session.ipp one at a time: a
-- session waits for one operation, whose handler starts the next or passes on what became of the
-- exchange. Other sessions may run between two handlers.
pub mod Called
use jsonrpc_for_cpp.Asio.{Failure, Report, broken, done}
use jsonrpc_for_cpp.ClientSession.{Network, Session, log, write_request}
use jsonrpc_for_cpp.Json.{JsonLib}
use Prim.Native.String.{◌++◌ as append}
use jsonrpc_for_cpp.Prelude.{String}

-- The operation that a session waits for.
pub data Operation (E : Type 0) : Type 0 where
  resolving : Operation E
  connecting : E → Operation E
  writing : Operation E
  reading : Operation E

-- A session that is through has passed this outcome to the handler of `async_call`.
pub data Phase (E : Type 0) : Type 0 where
  waits : Operation E → Phase E
  through : Report String → Phase E

module _ ⦃J : JsonLib⦄ {N : Type 0} (n : Network N) where
  -- The next operation starts with the timeout.
  abbrev start : Operation n.Endpoints → Session N → Phase n.Endpoints × Session N
  start operation s = (waits operation, record s { net = n.expires_after s.timeout s.net })

  -- A handler that fails logs, and so does the one that it passes its error code to.
  unfoldable pub stop : String → String → Failure → Session N → Phase n.Endpoints × Session N
  unfolding log
  stop inner outer ec s =
      (through (broken ec), log (append outer ec.message) (log (append inner ec.message) s))

  unfoldable pub on_resolve : Report n.Endpoints → Session N → Phase n.Endpoints × Session N
  unfolding stop
  on_resolve (broken ec) s = stop "解析域名失败: " "连接失败: " ec s
  on_resolve (done endpoints) s = start (connecting endpoints) s

  unfoldable pub on_connect : Report (Unit {0}) → Session N → Phase n.Endpoints × Session N
  unfolding stop
  on_connect (broken ec) s = stop "连接失败: " "连接失败: " ec s
  on_connect (done _) s = start writing s

  unfoldable pub on_write : Report (Unit {0}) → Session N → Phase n.Endpoints × Session N
  unfolding stop
  on_write (broken ec) s = stop "写入请求失败: " "写入请求失败: " ec s
  on_write (done _) s = start reading (record s { res = "" })

  unfoldable pub on_read : Report String → Session N → Phase n.Endpoints × Session N
  unfolding stop
  on_read (broken ec) s = stop "读取响应失败: " "读取响应失败: " ec s
  on_read (done text) s = (through (done text), record s { net = n.shutdown s.net; res = text })

  -- The operation ends with what the network reports, and its handler runs.
  unfoldable pub turn : Operation n.Endpoints → Session N → Phase n.Endpoints × Session N
  unfolding write_request on_resolve on_connect on_write on_read
  turn resolving s =
      let (results, net) = n.resolve s.host s.port s.net in
      on_resolve results (record s { net = net })
  turn (connecting endpoints) s =
      let (linked, net) = n.connect endpoints s.net in on_connect linked (record s { net = net })
  turn writing s =
      let (sent, net) = write_request n s.req s.net in on_write sent (record s { net = net })
  turn reading s = let (body, net) = n.read s.net in on_read body (record s { net = net })
