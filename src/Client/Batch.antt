-- ===== src/Client/Batch.antt =====
-- A batch of calls through a server session and back.
use jsonrpc_for_cpp.Registry.Batch.{BatchReturns}
use native.Mathlib.Omega.{arith}
use jsonrpc_for_cpp.Asio.{done}
use jsonrpc_for_cpp.Client.{Client, call_batch, create_session}
use jsonrpc_for_cpp.ClientSession
use jsonrpc_for_cpp.ClientSession.{Network, exchange}
use jsonrpc_for_cpp.Json.{JsonLib, array, IsStable}
use jsonrpc_for_cpp.Prelude.{Bool, List, ◌∷◌, All, String, ◌≡◌, map, ap, ◌∙◌}
use jsonrpc_for_cpp.Protocol.{
  request_value, response_value, serialize_batch_request, parse_batch_response,
}
use jsonrpc_for_cpp.Protocol.RoundTrip.{
  Sendable, Sound, parse_batch_response-serialize_batch_response,
}
use jsonrpc_for_cpp.Registry.{Registry}
use jsonrpc_for_cpp.Registry.Batch.Order.{AnswersAll, calls}
use jsonrpc_for_cpp.Results.{ok}
use jsonrpc_for_cpp.ServerSession.{HttpRequest, HttpResponse, Processes}
use jsonrpc_for_cpp.ServerSession.Receives.{IsJsonPost}
use jsonrpc_for_cpp.ServerSession.Replies.{Processes-batch}
use jsonrpc_for_cpp.Types.Request.{Request}
use jsonrpc_for_cpp.Types.Response.{Response}

module _ ⦃J : JsonLib⦄ where
  open J use {Value, value}

  module _ {W N : Type 0} (n : Network N) (g : Registry W) where
    batch_read :
        (requests : List Request) (c : Client N) (xs : List Response) (text : String)
        → (exchange n (serialize_batch_request requests) (create_session c)).0 ≡ done text
        → parse_batch_response text ≡ ok xs
        → (call_batch n requests c).0 ≡ ok xs
    unfolding call_batch ClientSession.call_batch ClientSession.send_request_sync
        ClientSession.parsed_or_logged
    batch_read requests c xs text sent read = ground arith

    -- The client's batch returns what the batch returns on the server, at the state that the
    -- session finds, which is left as the batch leaves it: one response for each request with an
    -- identifier, each the answer of its task, in the order of the requests; if the requests are
    -- valid, without NUL in their method names; if the text of the batch is read back as written;
    -- if the body that the network delivers is what a session of the server writes for the body
    -- that the client sent; and if the responses that the server may give are successes or errors
    -- with an `int` code and no NUL in their message, and their text is read back as written.
    pub call_batch-AnswersAll :
        (fresh : Bool) (c : Client N) (r : Request) (rs : List Request) (req : HttpRequest)
        (w w' : W) (res : HttpResponse)
        → All Sendable (r ∷ rs)
        → IsStable (value (array (map request_value (r ∷ rs))))
        → IsJsonPost req
        → req.body ≡ serialize_batch_request (r ∷ rs)
        → Processes fresh g req w res w'
        → (exchange n (serialize_batch_request (r ∷ rs)) (create_session c)).0 ≡ done res.body
        → ((xs : List Response)
            → AnswersAll g (calls (r ∷ rs)) xs
            → All Sound xs × IsStable (value (array (map response_value xs))))
        → (xs : List Response) × BatchReturns g (r ∷ rs) w xs w'
          × AnswersAll g (calls (r ∷ rs)) xs
          × ((call_batch n (r ∷ rs) c).0 ≡ ok xs)
    call_batch-AnswersAll fresh c r rs req w w' res s h p b processed sent readable =
        let (xs, returned, answers, made) =
          Processes-batch fresh g req r rs w w' res p s h b processed in
        let (sound, stable) = readable xs answers in
        (
          xs,
          returned,
          answers,
          batch_read (r ∷ rs) c xs res.body sent (
              ap (λ z. parse_batch_response z.body) made
              ∙ parse_batch_response-serialize_batch_response xs sound stable),
        )
