-- ===== src/Client.antt =====
-- include/jsonrpc/client.hpp and impl/client.ipp: the client object, and its typed calls. Each call
-- has a session of its own over the network, whose state, `N`, the sessions share. A list of conversions stands for the pack of argument types.
pub mod Task
pub mod Failures
pub mod Contract
pub mod Identifiers
pub mod Remote
pub mod Batch
pub mod EventLoop
pub mod Loop
use jsonrpc_for_cpp.ClientSession.{Network, Session, build_request}
use jsonrpc_for_cpp.ClientSession
use jsonrpc_for_cpp.ClientSession.Async
use jsonrpc_for_cpp.Converter.{Converter}
use jsonrpc_for_cpp.Converter.Args.{Param, Tuple, pack_args}
use jsonrpc_for_cpp.Results.{Result, ok, throw, rpc, ◌>>=◌}
use jsonrpc_for_cpp.Json.{JsonLib, int64, array}
use jsonrpc_for_cpp.Protocol.{serialize_request}
use jsonrpc_for_cpp.Prelude.{
  List, [], ◌∷◌, none, String, ℕ, ◌^◌, ◌-◌, ◌+◌, ◌==◌, if◌then◌else◌, zero, suc, to_string, Bool,
  false,
}
use jsonrpc_for_cpp.Prelude.Int.{ℤ, pos, negsuc}
use jsonrpc_for_cpp.Types.Request.{Request, request_of, notification_of}
use jsonrpc_for_cpp.Types.Response.{Response, error, result}

-- `next_id_.fetch_add(1)`, which wraps.
abbrev pub next_int64 : ℤ → ℤ
next_int64 (pos m) = if m == 2 ^ 63 - 1 then negsuc (2 ^ 63 - 1) else pos (m + 1)
next_int64 (negsuc zero) = pos 0
next_int64 (negsuc (suc m)) = negsuc m

module _ ⦃J : JsonLib⦄ where
  open J use {Value, value}

  pub record Client (N : Type 0) : Type 0 where
    pub host : String
    pub port : String
    pub timeout : ℤ
    pub logger : Bool
    pub next_id : ℤ
    pub net : N
    pub logs : List String
    pub called : List Response

  -- The end of a typed call: an error response is thrown, a result converted.
  unfoldable pub unpack : {A : Type 0} → Converter A → Response → Result A
  unpack converter response =
      if response.is_error
      then error response >>= (λ e. throw (rpc e))
      else result response >>= converter.from_json

  module _ {N : Type 0} where
    -- The constructor, on a network in some state.
    unfoldable pub new_client : String → ℕ → N → Client N
    new_client host port net = record {
      host = host;
      port = to_string port;
      timeout = pos 30000;
      logger = false;
      next_id = pos 1;
      net = net;
      logs = [];
      called = [];
    }

    -- The setters; a logger that is set to an empty function is none.
    unfoldable pub set_timeout : ℤ → Client N → Client N
    set_timeout timeout c = record c { timeout = timeout }

    unfoldable pub set_logger : Bool → Client N → Client N
    set_logger logger c = record c { logger = logger }

    unfoldable pub generate_id : Client N → Value × Client N
    generate_id c = (value (int64 c.next_id), record c { next_id = next_int64 c.next_id })

    unfoldable pub create_session : Client N → Session N
    create_session c =
        ClientSession.new_session c.host c.port c.timeout c.logger c.net c.logs c.called

    -- What a session leaves to its client.
    unfoldable pub leave_session : Client N → Session N → Client N
    leave_session c s = record c { net = s.net; logs = s.logs; called = s.called }

    -- The request of a call, with the identifier that it takes.
    unfoldable pub typed_request :
        String → (ps : List Param) → Tuple ps → Client N → Request × Client N
    unfolding generate_id
    typed_request method ps args c =
        let (id, d) = generate_id c in (request_of method (value (array (pack_args ps args))) id, d)

    -- Begins the call and returns: the session, whose request is built, waits for its first
    -- operation. Its handlers, which hold the callback, run in the event loop (Client/Loop).
    unfoldable pub async_call :
        String → (ps : List Param) → Tuple ps → Client N → Session N × Client N
    unfolding typed_request create_session build_request
    async_call method ps args c =
        let (request, d) = typed_request method ps args c in
        (build_request (serialize_request request) (create_session d), d)

    module _ (n : Network N) where
      unfoldable pub call :
          {A : Type 0}
          → Converter A
          → String
          → (ps : List Param) → Tuple ps
          → Client N
          → Result A × Client N
      unfolding typed_request create_session leave_session unpack
      call converter method ps args c =
          let (request, d) = typed_request method ps args c in
          let (response, s) = ClientSession.call n request (create_session d) in
          (response >>= unpack converter, leave_session d s)

      unfoldable pub call_batch : List Request → Client N → Result (List Response) × Client N
      unfolding create_session leave_session
      call_batch requests c =
          let (responses, s) = ClientSession.call_batch n requests (create_session c) in
          (responses, leave_session c s)

      unfoldable pub notify : String → (ps : List Param) → Tuple ps → Client N → Client N
      unfolding create_session leave_session
      notify method ps args c = leave_session c (
          ClientSession.notify n (notification_of method (value (array (pack_args ps args))))
            (create_session c))
