-- ===== src/Client/Loop/Asking.antt =====
-- A call that waits for its answer calls nobody back: include/jsonrpc/impl/client.ipp and
-- impl/client_session.ipp.
use jsonrpc_for_cpp.Protocol.{
  serialize_request, serialize_batch_request, parse_response, parse_batch_response,
}
use jsonrpc_for_cpp.Asio.{Report-cases}
use jsonrpc_for_cpp.Client.{
  Client, call, call_batch, notify, typed_request, create_session, leave_session, generate_id,
}
use jsonrpc_for_cpp.Client.Loop.{Asks, one, batch, notification, serialize_request}
use jsonrpc_for_cpp.ClientSession
use jsonrpc_for_cpp.ClientSession.{
  Network, Session, exchange, send_request_sync, log, parsed_or_logged,
}
use jsonrpc_for_cpp.ClientSession.Async.Once.{send_request_async-exchange}
use jsonrpc_for_cpp.Json.{JsonLib}
use jsonrpc_for_cpp.Prelude.{String, ◌≡◌, refl, inl, inr, List, ap, ◌∙◌}
use jsonrpc_for_cpp.Results.{Result, Result-cases, ok, throw, rpc, std_exception, foreign}
use jsonrpc_for_cpp.Types.Request.{Request}

module _ ⦃J : JsonLib⦄ {N : Type 0} (n : Network N) where
  send_request_sync-called :
      (body : String) (s : Session N) → (send_request_sync n body s).1.called ≡ s.called
  unfolding send_request_sync log
  send_request_sync-called body s =
      let (u, same, run) = send_request_async-exchange n body (λ ec text v. v) s in
      elim (Report-cases (exchange n body s).0) [
        | inl (text, h) ↦ rw (h, send_request_sync) same.uncalled
        | inr (ec, h) ↦ rw (h, send_request_sync) same.uncalled
      ]

  parsed_or_logged-called :
      {A : Type 0} (prefix : String) (r : Result A) (s : Session N)
      → (parsed_or_logged n prefix r s).1.called ≡ s.called
  unfolding parsed_or_logged log
  parsed_or_logged-called prefix (ok a) s = refl
  parsed_or_logged-called prefix (throw (rpc e)) s = refl
  parsed_or_logged-called prefix (throw (std_exception what)) s = refl
  parsed_or_logged-called prefix (throw foreign) s = refl

  call-called :
      (request : Request) (s : Session N) → (ClientSession.call n request s).1.called ≡ s.called
  unfolding ClientSession.call
  call-called request s =
      let body = serialize_request request in
      let (sent, t) = send_request_sync n body s in
      elim (Result-cases sent) [
        | inl (text, h) ↦
            rw (h, ClientSession.call)
              (parsed_or_logged-called "解析响应失败: " (parse_response text) t
                ∙ send_request_sync-called body s)
        | inr (x, h) ↦ rw (h, ClientSession.call) (send_request_sync-called body s)
      ]

  call_batch-called :
      (requests : List Request) (s : Session N)
      → (ClientSession.call_batch n requests s).1.called ≡ s.called
  unfolding ClientSession.call_batch
  call_batch-called requests s =
      let body = serialize_batch_request requests in
      let (sent, t) = send_request_sync n body s in
      elim (Result-cases sent) [
        | inl (text, h) ↦
            rw (h, ClientSession.call_batch)
              (parsed_or_logged-called "解析批量响应失败: " (parse_batch_response text) t
                ∙ send_request_sync-called body s)
        | inr (x, h) ↦ rw (h, ClientSession.call_batch) (send_request_sync-called body s)
      ]

module _ ⦃J : JsonLib⦄ {N : Type 0} where
  pub Asks-called : (c d : Client N) → Asks c d → d.called ≡ c.called
  unfolding call call_batch notify typed_request create_session leave_session generate_id
      ClientSession.notify
  Asks-called c d (one n converter method ps args made) =
      let (request, e) = typed_request method ps args c in
      ap (λ z. z.called) made ∙ call-called n request (create_session e)
  Asks-called c d (batch n requests made) =
      ap (λ z. z.called) made ∙ call_batch-called n requests (create_session c)
  Asks-called c d (notification n method ps args made) =
      ap (λ z. z.called) made ∙ send_request_sync-called n _ (create_session c)
