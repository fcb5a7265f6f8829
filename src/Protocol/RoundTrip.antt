-- ===== src/Protocol/RoundTrip.antt =====
-- Parsing what the other side serialised. Each theorem assumes that the JSON library reads back
-- the one value that is written (`IsStable`).
use jsonrpc_for_cpp.Errors.{error_with}
use native.Mathlib.Omega.{arith}
use jsonrpc_for_cpp.Prelude.Int.{ℤ, InRange}
use jsonrpc_for_cpp.Protocol.{
  parse_batch_response, parse_request, parse_response, parse_text, parse_element, request_value,
  response_value, serialize_batch_request, serialize_batch_response, serialize_request,
  serialize_response, parse_elements, parse_single,
}
use jsonrpc_for_cpp.Results.{ok, Yields, collect_complete}
use jsonrpc_for_cpp.Types.Response.{Response, success, failure}
use jsonrpc_for_cpp.Types.Request.{Request}
use jsonrpc_for_cpp.Json.{JsonLib, IsStable, array, kind-value, object}
use jsonrpc_for_cpp.Prelude.{
  List, [], ◌∷◌, map, ◌≡◌, no_nul, All, true, String, ◌∙◌, ap, c_str_id, ◌^◌,
}
use jsonrpc_for_cpp.Types.Request
use jsonrpc_for_cpp.Types.Response

module _ ⦃J : JsonLib⦄ where
  open J use {Value, Object, kind, value, find, parse, serialize}

  -- A request that survives the wire: valid, and with a method name without NUL.
  pub record Sendable (r : Request) : Type 0 where
    pub valid : Request.RoundTrip.IsValid r
    pub clean : no_nul r.method ≡ true

  from_json-request_value : (r : Request) → Sendable r → Request.from_json (request_value r) ≡ ok r
  from_json-request_value r s =
      Request.RoundTrip.from_json-to_json r s.valid
      ∙ ap (λ m. ok (record r { method = m })) (c_str_id r.method s.clean)

  parse_text_stable : (v : Value) → IsStable v → parse_text (serialize v) ≡ ok v
  unfolding parse_text
  parse_text_stable v h = ground arith

  -- The text of a request is parsed to that request alone, if the request is valid, has no NUL in
  -- its method name, and its text is read back as written.
  pub parse_request-serialize_request :
      (r : Request)
      → Sendable r
      → IsStable (request_value r)
      → parse_request (serialize_request r) ≡ ok (r ∷ [])
  unfolding parse_request serialize_request parse_single
  parse_request-serialize_request r s h = ground (
    arith,
    parse_text_stable (request_value r) h,
    from_json-request_value r s,
    kind-value (object (Request.to_json r)),
  )

  Yields-request_values :
      (rs : List Request) → All Sendable rs → Yields Request.from_json (map request_value rs) rs
  Yields-request_values [] h = tt
  Yields-request_values (r ∷ rs) (s, h) = (from_json-request_value r s, Yields-request_values rs h)

  -- The text of a batch of at least one request is parsed to the same requests in order, if each
  -- is valid without NUL in its method name, and the text is read back as written.
  pub parse_request-serialize_batch_request :
      (r : Request) (rs : List Request)
      → All Sendable (r ∷ rs)
      → IsStable (value (array (map request_value (r ∷ rs))))
      → parse_request (serialize_batch_request (r ∷ rs)) ≡ ok (r ∷ rs)
  unfolding parse_request serialize_batch_request parse_elements
  parse_request-serialize_batch_request r rs s h = ground (
    arith,
    parse_text_stable (value (array (map request_value (r ∷ rs)))) h,
    kind-value (array (map request_value (r ∷ rs))),
    collect_complete Request.from_json (map request_value (r ∷ rs)) (r ∷ rs)
        (Yields-request_values (r ∷ rs) s),
  )

  -- A response as the server makes them: a success, or an error made by the constructor with an
  -- `int` code and a message without NUL.
  pub data Sound : Response → Type 0 where
    succeeded : (result id : Value) → Sound (success result id)
    failed_with :
        (code : ℤ) (message : String) (extra id : Value)
        → InRange (2 ^ 31) code
        → no_nul message ≡ true
        → Sound (failure (error_with code message extra) id)

  from_json-response_value : {r : Response} → Sound r → Response.from_json (response_value r) ≡ ok r
  from_json-response_value (succeeded result id) =
      Response.RoundTrip.from_json-to_json_success result id
  from_json-response_value (failed_with code message extra id h k) =
      Response.RoundTrip.from_json-to_json_failure code message extra id h
      ∙ ap (λ m. ok (failure (error_with code m extra) id)) (c_str_id message k)

  -- The text of a response is parsed to the same response, if it is a success, or an error with an
  -- `int` code and no NUL in its message, and its text is read back as written.
  pub parse_response-serialize_response :
      (r : Response)
      → Sound r
      → IsStable (response_value r)
      → parse_response (serialize_response r) ≡ ok r
  unfolding parse_response serialize_response
  parse_response-serialize_response r s h = ground (
    arith,
    parse_text_stable (response_value r) h,
    from_json-response_value s,
    kind-value (object (Response.to_json r)),
  )

  parse_element-response_value : {r : Response} → Sound r → parse_element (response_value r) ≡ ok r
  unfolding parse_element
  parse_element-response_value {r} s =
      ground (arith, kind-value (object (Response.to_json r)), from_json-response_value s)

  Yields-response_values :
      (rs : List Response) → All Sound rs → Yields parse_element (map response_value rs) rs
  Yields-response_values [] h = tt
  Yields-response_values (r ∷ rs) (s, h) =
      (parse_element-response_value s, Yields-response_values rs h)

  -- The text of a batch of responses is parsed to the same responses in order, if each is a
  -- success, or an error with an `int` code and no NUL in its message, and the text is read back
  -- as written.
  pub parse_batch_response-serialize_batch_response :
      (rs : List Response)
      → All Sound rs
      → IsStable (value (array (map response_value rs)))
      → parse_batch_response (serialize_batch_response rs) ≡ ok rs
  unfolding parse_batch_response serialize_batch_response
  parse_batch_response-serialize_batch_response rs s h = ground (
    arith,
    parse_text_stable (value (array (map response_value rs))) h,
    kind-value (array (map response_value rs)),
    collect_complete parse_element (map response_value rs) rs (Yields-response_values rs s),
  )
