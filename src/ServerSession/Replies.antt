-- ===== src/ServerSession/Replies.antt =====
-- What the server writes back to a client.
use jsonrpc_for_cpp.Registry.Batch.{task_response, BatchReturns}
use jsonrpc_for_cpp.Registry.Batch.Single.{BatchReturns-single}
use jsonrpc_for_cpp.Registry.Batch.Order.{AnswersAll, calls, BatchReturns-AnswersAll}
use native.Mathlib.Omega.{arith}
use jsonrpc_for_cpp.Protocol.RoundTrip.{Sendable}
use jsonrpc_for_cpp.Protocol.{
  request_value, serialize_request, serialize_response, serialize_batch_request,
  serialize_batch_response,
}
use jsonrpc_for_cpp.Registry.{Registry}
use jsonrpc_for_cpp.Json.{JsonLib, IsStable, array}
use jsonrpc_for_cpp.Prelude.{
  refl, List, [], ◌∷◌, some, Bool, ◌≡◌, true, false, subst, ◌∙◌, ap, All, if◌then◌else◌, map,
}
use jsonrpc_for_cpp.Types.Request.{Request}
use jsonrpc_for_cpp.Types.Response.{Response}
use jsonrpc_for_cpp.ServerSession.{
  HttpRequest, Processes, receive, HttpResponse, status_ok, refused, reply, served, no_content,
  calls_for,
}
use jsonrpc_for_cpp.ServerSession.Receives.{IsJsonPost, receive-single, receive-batch}

module _ ⦃J : JsonLib⦄ where
  open J use {Value, kind, value, parse}

  module _ {W : Type 0} (fresh : Bool) (g : Registry W) where
    -- The answer to a single call, and the state that it leaves.
    abbrev pub IsAnswered : HttpRequest → Request → W → W → HttpResponse → Type 0
    IsAnswered req r w w' res =
        (res ≡ record {
          status = status_ok;
          content_type = some "application/json";
          keep_alive = req.keep_alive;
          body = serialize_response (task_response g r w).0;
        })
        × (w' ≡ (task_response g r w).1)

    replies :
        {is_batch : Bool} (req : HttpRequest) (responses : List Response) {xs : List Response}
        → is_batch ≡ false
        → responses ≡ xs
        → reply req is_batch responses ≡ reply req false xs
    replies req responses alone made = rw (alone, made) refl

    served_single :
        {requests : List Request} {is_batch : Bool} (req : HttpRequest) (r : Request)
        → IsJsonPost req
        → Sendable r
        → IsStable (request_value r)
        → req.body ≡ serialize_request r
        → receive fresh req ≡ calls_for requests is_batch
        → (requests ≡ r ∷ []) × (is_batch ≡ false)
    served_single req r p s h b e =
        let single = receive-single fresh req r p s h b in (ground arith, ground arith)

    -- A JSON POST whose body is the text of one call is answered with status 200 by the response
    -- that its task gives at the state that the session finds, which is left as the task leaves
    -- it, with the keep-alive that the client asked for: if the call is one that may be sent
    -- (valid, with an identifier and no NUL in its method name) and its text is read back as
    -- written.
    pub Processes-IsAnswered :
        (req : HttpRequest) (r : Request) (w w' : W) (res : HttpResponse)
        → IsJsonPost req
        → Sendable r
        → IsStable (request_value r)
        → req.body ≡ serialize_request r
        → r.has_id ≡ true
        → Processes fresh g req w res w'
        → IsAnswered req r w w' res
    Processes-IsAnswered req r w w' res p s h b call (refused message e k) =
        absurd (ground (arith, receive-single fresh req r p s h b))
    Processes-IsAnswered req r w w' res p s h b call (served requests is_batch responses e k f) =
        let (same, alone) = served_single req r p s h b e in
        let (made, left) =
          BatchReturns-single g r w w' responses
            (subst (λ z. BatchReturns g z w responses w') same k) in
        (
          f
              ∙ replies req responses alone
                  (made ∙ ap (λ z. if z then (task_response g r w).0 ∷ [] else []) call)
              ∙ unfold reply in refl,
          left,
        )

    -- A JSON POST whose body is the text of one notification is answered with status 204 and an
    -- empty body, with the keep-alive that the client asked for, and its task has run once at the
    -- state that the session finds: if the notification is valid, without NUL in its method name,
    -- and its text is read back as written.
    pub Processes-notification :
        (req : HttpRequest) (r : Request) (w w' : W) (res : HttpResponse)
        → IsJsonPost req
        → Sendable r
        → IsStable (request_value r)
        → req.body ≡ serialize_request r
        → r.has_id ≡ false
        → Processes fresh g req w res w'
        → (res.status ≡ no_content)
          × (res.body ≡ "")
          × (res.keep_alive ≡ req.keep_alive)
          × (w' ≡ (task_response g r w).1)
    Processes-notification req r w w' res p s h b silent (refused message e k) =
        absurd (ground (arith, receive-single fresh req r p s h b))
    Processes-notification req r w w' res p s h b silent
          (served requests is_batch responses e k f) =
        let (same, alone) = served_single req r p s h b e in
        let (made, left) =
          BatchReturns-single g r w w' responses
            (subst (λ z. BatchReturns g z w responses w') same k) in
        let answer : res ≡ reply req false [] =
          f
          ∙ replies req responses alone
              (made ∙ ap (λ z. if z then (task_response g r w).0 ∷ [] else []) silent) in
        (
          unfold reply in ground arith,
          unfold reply in ground arith,
          unfold reply in ground arith,
          left,
        )

    -- A JSON POST whose body is the text of a batch of at least one request is answered with
    -- status 200, and the keep-alive that the client asked for, by an array of the responses that
    -- the batch returns at the state that the session finds, which is left as the batch leaves it:
    -- one response for each request with an identifier, in their order, and none if none has one.
    -- The requests are valid, without NUL in their method names, and the text of the batch is read
    -- back as written.
    pub Processes-batch :
        (req : HttpRequest) (r : Request) (rs : List Request) (w w' : W) (res : HttpResponse)
        → IsJsonPost req
        → All Sendable (r ∷ rs)
        → IsStable (value (array (map request_value (r ∷ rs))))
        → req.body ≡ serialize_batch_request (r ∷ rs)
        → Processes fresh g req w res w'
        → (responses : List Response) × BatchReturns g (r ∷ rs) w responses w'
          × AnswersAll g (calls (r ∷ rs)) responses
          × (res ≡ record {
            status = status_ok;
            content_type = some "application/json";
            keep_alive = req.keep_alive;
            body = serialize_batch_response responses;
          })
    unfolding reply
    Processes-batch req r rs w w' res p s h b (refused message e k) =
        absurd (ground (arith, receive-batch fresh req r rs p s h b))
    Processes-batch req r rs w w' res p s h b (served requests is_batch responses e k f) =
        let several = receive-batch fresh req r rs p s h b in
        let same : requests ≡ r ∷ rs = ground arith in
        let together : is_batch ≡ true = ground arith in
        (
          responses,
          subst (λ z. BatchReturns g z w responses w') same k,
          subst (λ z. AnswersAll g (calls z) responses) same
              (BatchReturns-AnswersAll g requests w w' responses k),
          f ∙ ap (λ z. reply req z responses) together,
        )
