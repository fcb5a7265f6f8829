-- ===== src/Client/Failures.antt =====
-- What the calls of a client throw.
use jsonrpc_for_cpp.Client.{Client, call, call_batch, typed_request, create_session, unpack}
use jsonrpc_for_cpp.ClientSession.{Network, Session, send_request_sync, parsed_or_logged}
use jsonrpc_for_cpp.ClientSession
use jsonrpc_for_cpp.Converter.{
  Converter, double_from_json, int_from_json, Floats, int_converter, double_converter,
}
use jsonrpc_for_cpp.Converter.Args.{Param, Tuple}
use jsonrpc_for_cpp.Json.{JsonLib}
use jsonrpc_for_cpp.Prelude.{String, List, inl, inr, arith}
use jsonrpc_for_cpp.Protocol.{
  parse_response, parse_batch_response, serialize_request, serialize_batch_request,
}
use jsonrpc_for_cpp.Protocol.Refusals.{RefusesOnly, parse_response-RefusesOnly}
use jsonrpc_for_cpp.Results.{Result, OnlyErrors, OnlyCode-OnlyErrors, Result-cases, bind-OnlyErrors}
use jsonrpc_for_cpp.Types.Request.{Request}
use jsonrpc_for_cpp.Types.Response.{Response, error, result}
use jsonrpc_for_cpp.Errors.ErrorCode

module _ ⦃J : JsonLib⦄ where
  open J use {Value}

  RefusesOnly-OnlyErrors :
      {A : Type 0} (text : String) (r : Result A) → RefusesOnly text r → OnlyErrors r
  RefusesOnly-OnlyErrors text r (inl (what, h, only, fails)) =
      OnlyCode-OnlyErrors ErrorCode.parse_error r only
  RefusesOnly-OnlyErrors text r (inr (jv, h, only)) =
      OnlyCode-OnlyErrors ErrorCode.invalid_request r only

  module _ {N : Type 0} (n : Network N) where
    parsed_or_logged-OnlyErrors :
        {A : Type 0} (prefix : String) (r : Result A) (s : Session N)
        → OnlyErrors r
        → OnlyErrors (parsed_or_logged n prefix r s).0
    unfolding parsed_or_logged
    parsed_or_logged-OnlyErrors prefix r s h = ground arith

    send_request_sync-OnlyErrors :
        (body : String) (s : Session N) → OnlyErrors (send_request_sync n body s).0
    unfolding send_request_sync
    send_request_sync-OnlyErrors body s = ground arith

    session_call-OnlyErrors :
        (request : Request) (s : Session N) → OnlyErrors (ClientSession.call n request s).0
    unfolding ClientSession.call
    session_call-OnlyErrors request s =
        let sent = send_request_sync n (serialize_request request) s in
        elim (Result-cases sent.0) [
          | inl (body, h) ↦ ground (
            arith,
            parsed_or_logged-OnlyErrors "解析响应失败: " (parse_response body) sent.1 (
                RefusesOnly-OnlyErrors body (parse_response body)
                  (parse_response-RefusesOnly body).0),
          )
          | inr (x, h) ↦ ground (arith, send_request_sync-OnlyErrors (serialize_request request) s)
        ]

    unpack-OnlyErrors :
        {A : Type 0} (converter : Converter A) (x : Response)
        → ((v : Value) → OnlyErrors (converter.from_json v))
        → OnlyErrors (unpack converter x)
    unfolding unpack error result
    unpack-OnlyErrors converter x h = ground (arith, h x.result_value)

    -- A typed call throws nothing but an `Error`, whatever the network does, if the conversion of
    -- its result throws nothing else.
    pub call-OnlyErrors :
        {A : Type 0} (converter : Converter A) (method : String) (ps : List Param) (args : Tuple ps)
        (c : Client N)
        → ((v : Value) → OnlyErrors (converter.from_json v))
        → OnlyErrors (call n converter method ps args c).0
    unfolding call
    call-OnlyErrors converter method ps args c h =
        let request = typed_request method ps args c in
        let sent = ClientSession.call n request.0 (create_session request.1) in
        bind-OnlyErrors sent.0 (unpack converter)
          (session_call-OnlyErrors request.0 (create_session request.1))
          (λ x. unpack-OnlyErrors converter x h)

    -- A batch call throws nothing but an `Error`.
    pub call_batch-OnlyErrors :
        (requests : List Request) (c : Client N) → OnlyErrors (call_batch n requests c).0
    unfolding call_batch ClientSession.call_batch
    call_batch-OnlyErrors requests c =
        let sent = send_request_sync n (serialize_batch_request requests) (create_session c) in
        elim (Result-cases sent.0) [
          | inl (body, h) ↦ ground (
            arith,
            parsed_or_logged-OnlyErrors "解析批量响应失败: " (parse_batch_response body) sent.1 (
                RefusesOnly-OnlyErrors body (parse_batch_response body)
                  (parse_response-RefusesOnly body).1),
          )
          | inr (x, h) ↦ ground (
            arith,
            send_request_sync-OnlyErrors (serialize_batch_request requests) (create_session c),
          )
        ]

  pub int_converter-OnlyErrors : (v : Value) → OnlyErrors (int_converter.from_json v)
  unfolding int_from_json
  int_converter-OnlyErrors v = ground arith

  pub double_converter-OnlyErrors :
      (F : Floats) (v : Value) → OnlyErrors ((double_converter F).from_json v)
  unfolding double_from_json
  double_converter-OnlyErrors F v = ground arith
