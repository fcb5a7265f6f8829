-- ===== src/Client/Task.antt =====
-- A typed call through the session of a server, against the task that it runs there.
use jsonrpc_for_cpp.Results.{ok}
use jsonrpc_for_cpp.ServerSession.Replies.{Processes-IsAnswered}
use jsonrpc_for_cpp.ServerSession.Receives.{IsJsonPost}
use jsonrpc_for_cpp.Protocol.{request_value, response_value, serialize_request, parse_response}
use jsonrpc_for_cpp.Registry.Batch.{task_response}
use jsonrpc_for_cpp.Protocol.RoundTrip.{Sendable, Sound, parse_response-serialize_response}
use jsonrpc_for_cpp.ServerSession.{HttpRequest, HttpResponse, Processes}
use jsonrpc_for_cpp.Types.Request.{request_of}
use jsonrpc_for_cpp.Types.Response.{Response}
use jsonrpc_for_cpp.Client.{Client, call, typed_request, create_session, unpack}
use jsonrpc_for_cpp.Converter.Args.{Param, Tuple, pack_args}
use jsonrpc_for_cpp.Prelude.{String, List, Bool, no_nul, ◌≡◌, true, ap, ◌∙◌, refl}
use jsonrpc_for_cpp.Converter.{Converter}
use jsonrpc_for_cpp.Registry.{Registry}
use jsonrpc_for_cpp.ClientSession.{Network, exchange}
use jsonrpc_for_cpp.Json.{JsonLib, array, int64, kind-value, IsStable}
use native.Mathlib.Omega.{arith}
use jsonrpc_for_cpp.ClientSession
use jsonrpc_for_cpp.Asio.{done}

module _ ⦃J : JsonLib⦄ where
  open J use {Value, value}

  module _ {W N R : Type 0} (n : Network N) (g : Registry W) (converter : Converter R)
      (method : String) (ps : List Param) (args : Tuple ps) where
    typed_request-Sendable :
        (c : Client N) → no_nul method ≡ true → Sendable (typed_request method ps args c).0
    unfolding typed_request request_of
    typed_request-Sendable c clean = record {
      valid = record {
        params = ground (arith, kind-value (array (pack_args ps args)));
        id = ground (arith, kind-value (int64 c.next_id));
      };
      clean = clean;
    }

    call_read :
        (c : Client N) (text : String) (x : Response)
        → (exchange n
            (serialize_request (typed_request method ps args c).0)
            (create_session (typed_request method ps args c).1)).0
          ≡ done text
        → parse_response text ≡ ok x
        → (call n converter method ps args c).0 ≡ unpack converter x
    unfolding call ClientSession.call ClientSession.send_request_sync ClientSession.parsed_or_logged
    call_read c text x sent read = ground arith

    -- A typed call gives what its caller gets from unpacking the response of the task that the
    -- server runs for it, at the state of the server's functions that the session finds, and
    -- leaves the state that the task leaves: for a method name without NUL; if that response is a
    -- success, or an error with an `int` code and no NUL in its message; if the texts of the
    -- request and of the response are read back as written; and if the body that the network
    -- delivers is what a session of that server writes for the body that the client sent.
    pub call-task_response :
        (fresh : Bool) (c : Client N) (req : HttpRequest) (w w' : W) (res : HttpResponse)
        → no_nul method ≡ true
        → Sound (task_response g (typed_request method ps args c).0 w).0
        → IsStable (request_value (typed_request method ps args c).0)
        → IsStable (response_value (task_response g (typed_request method ps args c).0 w).0)
        → IsJsonPost req
        → req.body ≡ serialize_request (typed_request method ps args c).0
        → Processes fresh g req w res w'
        → (exchange n
            (serialize_request (typed_request method ps args c).0)
            (create_session (typed_request method ps args c).1)).0
          ≡ done res.body
        → ((call n converter method ps args c).0
            ≡ unpack converter (task_response g (typed_request method ps args c).0 w).0)
          × (w' ≡ (task_response g (typed_request method ps args c).0 w).1)
    call-task_response fresh c req w w' res clean sound h k p b processed sent =
        let r = (typed_request method ps args c).0 in
        let (made, left) =
          Processes-IsAnswered fresh g req r w w' res p (typed_request-Sendable c clean) h b
            (typed_request-has_id c) processed in
        let x = (task_response g r w).0 in
        (
          call_read c res.body x sent
              (ap (λ z. parse_response z.body) made ∙ parse_response-serialize_response x sound k),
          left,
        )
      where
        typed_request-has_id : (c : Client N) → (typed_request method ps args c).0.has_id ≡ true
        typed_request-has_id c = unfold typed_request request_of in refl
