-- ===== src/Client/Identifiers.antt =====
-- Which identifiers the calls of a client take, and what a call leaves to the next.
use jsonrpc_for_cpp.Client.Loop.{Loop, Event, complete}
use jsonrpc_for_cpp.Client.{
  Client, call, async_call, call_batch, notify, typed_request, create_session, leave_session,
  next_int64, set_timeout, set_logger, generate_id,
}
use jsonrpc_for_cpp.ClientSession.{Network, Session, exchange, parsed_or_logged, send_request_sync}
use jsonrpc_for_cpp.ClientSession
use jsonrpc_for_cpp.Converter.{Converter}
use jsonrpc_for_cpp.Converter.Args.{Param, Tuple}
use jsonrpc_for_cpp.Json.{JsonLib}
use jsonrpc_for_cpp.Prelude.{String, List, ◌≡◌, refl, ℕ, suc, ◌-◌, ◌^◌, arith, Bool, inl, inr, some}
use jsonrpc_for_cpp.Prelude.Int.{ℤ, pos, negsuc}
use jsonrpc_for_cpp.Protocol.{parse_response, serialize_request}
use jsonrpc_for_cpp.Results.{Result, Result-cases}
use jsonrpc_for_cpp.Types.Request.{Request}

-- The place of an `int64_t` in the order in which they are counted up from 0.
abbrev place : ℤ → ℕ
place (pos m) = m
place (negsuc m) = 2 ^ 64 - 1 - m

module _ ⦃J : JsonLib⦄ where
  open J use {Value}

  module _ {N : Type 0} (n : Network N) where
    parsed_or_logged-net :
        {A : Type 0} (prefix : String) (r : Result A) (s : Session N)
        → (parsed_or_logged n prefix r s).1.net ≡ s.net
    unfolding parsed_or_logged
    parsed_or_logged-net prefix r s = ground arith

    send_request_sync-net :
        (body : String) (s : Session N)
        → (send_request_sync n body s).1.net ≡ (exchange n body s).1.net
    unfolding send_request_sync
    send_request_sync-net body s = ground arith

    session_call-net :
        (request : Request) (s : Session N)
        → (ClientSession.call n request s).1.net ≡ (exchange n (serialize_request request) s).1.net
    unfolding ClientSession.call
    session_call-net request s =
        let sent = send_request_sync n (serialize_request request) s in
        elim (Result-cases sent.0) [
          | inl (body, h) ↦ ground (
            arith,
            parsed_or_logged-net "解析响应失败: " (parse_response body) sent.1,
            send_request_sync-net (serialize_request request) s,
          )
          | inr (x, h) ↦ ground (arith, send_request_sync-net (serialize_request request) s)
        ]

    -- A typed call leaves the network as its one exchange does.
    pub call-net :
        {A : Type 0} (converter : Converter A) (method : String) (ps : List Param) (args : Tuple ps)
        (c : Client N)
        → (call n converter method ps args c).1.net
          ≡ (exchange n
              (serialize_request (typed_request method ps args c).0)
              (create_session (typed_request method ps args c).1)).1.net
    unfolding call leave_session
    call-net converter method ps args c =
        session_call-net (typed_request method ps args c).0
          (create_session (typed_request method ps args c).1)

    pub call-next_id :
        {A : Type 0} (converter : Converter A) (method : String) (ps : List Param) (args : Tuple ps)
        (c : Client N)
        → (call n converter method ps args c).1.next_id ≡ next_int64 c.next_id
    unfolding call leave_session typed_request generate_id
    call-next_id converter method ps args c = refl

    -- What a user does with a client, with the handlers of its event loop, and how many identifiers
    -- it takes.
    pub data Uses (c : Client N) : ℕ → Client N → Type 1 where
      none_yet : Uses c 0 c
      then_calls :
          {k : ℕ} {d : Client N} {A : Type 0} (converter : Converter A) (method : String)
          (ps : List Param) (args : Tuple ps)
          → Uses c k d
          → Uses c (suc k) (call n converter method ps args d).1
      then_async_calls :
          {k : ℕ} {d : Client N} (method : String) (ps : List Param) (args : Tuple ps)
          → Uses c k d
          → Uses c (suc k) (async_call method ps args d).1
      then_handles :
          {k : ℕ} (i : ℕ) (l m : Loop N) (es : List Event)
          → complete i l ≡ some (es, m)
          → Uses c k l.client
          → Uses c k m.client
      then_call_batch :
          {k : ℕ} {d : Client N} (requests : List Request)
          → Uses c k d
          → Uses c k (call_batch n requests d).1
      then_notifies :
          {k : ℕ} {d : Client N} (method : String) (ps : List Param) (args : Tuple ps)
          → Uses c k d
          → Uses c k (notify n method ps args d)
      then_sets :
          {k : ℕ} {d : Client N} (timeout : ℤ) (logger : Bool)
          → Uses c k d
          → Uses c k (set_logger logger (set_timeout timeout d))
