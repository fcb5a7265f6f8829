-- ===== src/ServerSession/Receives.antt =====
-- Which messages `process_request` passes to the methods, and as which requests.
use Prim.Native.String.{◌++◌ as append}
use jsonrpc_for_cpp.Errors.{Error}
use jsonrpc_for_cpp.Protocol.Refusals.{parse_request-RefusesOnly}
use native.Mathlib.Omega.{arith}
use jsonrpc_for_cpp.Protocol.RoundTrip.{
  Sendable, parse_request-serialize_request, parse_request-serialize_batch_request,
}
use jsonrpc_for_cpp.Protocol.{
  is_batch_request, request_value, serialize_request, serialize_batch_request, parse_request,
}
use jsonrpc_for_cpp.Results.{Exception, throw, rpc}
use jsonrpc_for_cpp.Json.{JsonLib, IsStable, kind-value, object, array}
use jsonrpc_for_cpp.Prelude.{
  List, [], ◌∷◌, Bool, ◌≡◌, true, String, ◌≢◌, false, inl, inr, All, ◌⊎◌, Bool-cases, map,
}
use jsonrpc_for_cpp.Types.Request
use jsonrpc_for_cpp.Types.Request.{Request}
use jsonrpc_for_cpp.ServerSession.{
  HttpRequest, receive, receive_body, contains_text, escapes, answers, calls_for, error_reply,
}

module _ ⦃J : JsonLib⦄ where
  open J use {Value, kind, value, parse}

  -- The message is one that `process_request` passes on to the parser.
  pub record IsJsonPost (req : HttpRequest) : Type 0 where
    pub post : req.is_post ≡ true
    pub json : contains_text req.content_type "application/json" ≡ true

  module _ (fresh : Bool) where
    receive_body-ne-escapes : (body : String) (x : Exception) → receive_body fresh body ≢ escapes x
    unfolding receive_body
    receive_body-ne-escapes body x h = elim (parse_request-RefusesOnly body) [
      | inl (what, p, code, fails) ↦ ground arith
      | inr (jv, p, code) ↦ ground arith
    ]

    -- Whatever the message, no exception leaves `process_request` before the methods are called.
    pub receive-ne-escapes : (req : HttpRequest) (x : Exception) → receive fresh req ≢ escapes x
    unfolding receive
    receive-ne-escapes req x h = ground (arith, receive_body-ne-escapes req.body x)

    pub receive-refused :
        (req : HttpRequest) (e : Error)
        → IsJsonPost req
        → parse_request req.body ≡ throw (rpc e)
        → receive fresh req ≡ answers (append "解析请求失败: " e.what) (error_reply fresh e)
    unfolding receive receive_body
    receive-refused req e p h = ground arith

    pub receive-single :
        (req : HttpRequest) (r : Request)
        → IsJsonPost req
        → Sendable r
        → IsStable (request_value r)
        → req.body ≡ serialize_request r
        → receive fresh req ≡ calls_for (r ∷ []) false
    unfolding receive receive_body is_batch_request serialize_request
    receive-single req r ok_post s h b =
        ground
          (arith, parse_request-serialize_request r s h, kind-value (object (Request.to_json r)))

    pub receive-batch :
        (req : HttpRequest) (r : Request) (rs : List Request)
        → IsJsonPost req
        → All Sendable (r ∷ rs)
        → IsStable (value (array (map request_value (r ∷ rs))))
        → req.body ≡ serialize_batch_request (r ∷ rs)
        → receive fresh req ≡ calls_for (r ∷ rs) true
    unfolding receive receive_body is_batch_request serialize_batch_request
    receive-batch req r rs p s h b = ground (
      arith,
      parse_request-serialize_batch_request r rs s h,
      kind-value (array (map request_value (r ∷ rs))),
    )

  pub not_json_cases :
      (req : HttpRequest)
      → ¬ IsJsonPost req
      → (req.is_post ≡ false)
        ⊎ ((req.is_post ≡ true) × (contains_text req.content_type "application/json" ≡ false))
  not_json_cases req h = elim (Bool-cases req.is_post) [
    | inr get ↦ inl get
    | inl post ↦ elim (Bool-cases (contains_text req.content_type "application/json")) [
      | inl json ↦ absurd (h (record { post = post; json = json }))
      | inr other ↦ inr (post, other)
    ]
  ]
