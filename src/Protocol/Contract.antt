-- ===== src/Protocol/Contract.antt =====
-- include/jsonrpc/detail/protocol.hpp: the class `Protocol` as the sessions see it, what its
-- comments promise, and that the implementation keeps it.
use text.Mathlib.TextEquality.{eq_iff}
use jsonrpc_for_cpp.Json.{
  JsonLib, Kind, null, IsStable, array, string, text_value, as_string, kind-value,
}
use jsonrpc_for_cpp.Prelude.{
  String, List, [], ◌∷◌, Bool, true, false, ◌≡◌, ◌↔◌, inl, inr, refl, ap, sym, ◌∙◌, All, map, some,
  none, Option-cases, arith,
}
use jsonrpc_for_cpp.Protocol
use jsonrpc_for_cpp.Protocol.{request_value, response_value}
use jsonrpc_for_cpp.Protocol.Refusals.{
  RefusesOnly, parse_request-RefusesOnly, parse_response-RefusesOnly,
}
use jsonrpc_for_cpp.Protocol.RoundTrip.{
  Sendable, Sound, parse_request-serialize_request, parse_request-serialize_batch_request,
  parse_response-serialize_response, parse_batch_response-serialize_batch_response,
}
use jsonrpc_for_cpp.Results.{Result, ok}
use jsonrpc_for_cpp.Types.Request.{Request}
use jsonrpc_for_cpp.Types.Response.{Response}

module _ ⦃J : JsonLib⦄ where
  open J use {Value, Object, Double, value, find, kind}

  -- The static functions.
  pub record ProtocolApi : Type 0 where
    pub parse_request : String → Result (List Request)
    pub serialize_response : Response → String
    pub serialize_batch_response : List Response → String
    pub validate_version : Object → Bool
    pub is_batch_request : Value → Bool
    pub serialize_request : Request → String
    pub serialize_batch_request : List Request → String
    pub parse_response : String → Result Response
    pub parse_batch_response : String → Result (List Response)

  -- What is said of each of them: a request alone comes back as a list of one element; a refusal is
  -- an `Error`, and says whether the text was JSON at all.
  pub record Promises (api : ProtocolApi) : Type 0 where
    pub one_request :
        (r : Request)
        → Sendable r
        → IsStable (request_value r)
        → api.parse_request (api.serialize_request r) ≡ ok (r ∷ [])
    pub batch_request :
        (r : Request) (rs : List Request)
        → All Sendable (r ∷ rs)
        → IsStable (value (array (map request_value (r ∷ rs))))
        → api.parse_request (api.serialize_batch_request (r ∷ rs)) ≡ ok (r ∷ rs)
    pub one_response :
        (r : Response)
        → Sound r
        → IsStable (response_value r)
        → api.parse_response (api.serialize_response r) ≡ ok r
    pub batch_response :
        (rs : List Response)
        → All Sound rs
        → IsStable (value (array (map response_value rs)))
        → api.parse_batch_response (api.serialize_batch_response rs) ≡ ok rs
    pub request_throws : (text : String) → RefusesOnly text (api.parse_request text)
    pub response_throws : (text : String) → RefusesOnly text (api.parse_response text)
    pub batch_response_throws : (text : String) → RefusesOnly text (api.parse_batch_response text)
    pub version :
        (obj : Object)
        → (api.validate_version obj ≡ true) ↔ (find "jsonrpc" obj ≡ some (text_value "2.0"))
    pub batch :
        (jv : Value)
        → (api.is_batch_request jv ≡ true) ↔ ((arr : List Value) × (jv ≡ value (array arr)))

  abbrev pub protocol_api : ProtocolApi
  protocol_api = record {
    parse_request = Protocol.parse_request;
    serialize_response = Protocol.serialize_response;
    serialize_batch_response = Protocol.serialize_batch_response;
    validate_version = Protocol.validate_version;
    is_batch_request = Protocol.is_batch_request;
    serialize_request = Protocol.serialize_request;
    serialize_batch_request = Protocol.serialize_batch_request;
    parse_response = Protocol.parse_response;
    parse_batch_response = Protocol.parse_batch_response;
  }

  array_kind :
      (k : Kind Value Object Double)
      → (elim k [ array vs ↦ true | _ ↦ false ]) ≡ true
      → (arr : List Value) × (k ≡ array arr)
  array_kind (array vs) h = (vs, refl)
  array_kind null h = absurd (ground arith)
  array_kind _ h = absurd (ground arith)

  string_kind :
      (k : Kind Value Object Double) (text : String)
      → (elim k [ string s ↦ some s | _ ↦ none ]) ≡ some text
      → k ≡ string text
  string_kind (string s) text h = ground arith
  string_kind null text h = absurd (ground arith)
  string_kind _ text h = absurd (ground arith)

  of_kind : (v : Value) (k : Kind Value Object Double) → kind v ≡ k → v ≡ value k
  of_kind v k h = sym (J.value-kind v) ∙ ap value h

  validate_version_iff :
      (obj : Object)
      → (Protocol.validate_version obj ≡ true) ↔ (find "jsonrpc" obj ≡ some (text_value "2.0"))
  unfolding Protocol.validate_version
  validate_version_iff obj = (λ h. there h, λ h. ground (arith, kind-value (string "2.0")))
    where
      there : Protocol.validate_version obj ≡ true → find "jsonrpc" obj ≡ some (text_value "2.0")
      there h = elim (Option-cases (find "jsonrpc" obj)) [
        | inl none_there ↦ absurd (ground arith)
        | inr (v, e) ↦ elim (Option-cases (as_string v)) [
          | inl other ↦ absurd (ground arith)
          | inr (text, k) ↦
              let same : text ≡ "2.0" = (eq_iff text "2.0").0 (ground arith) in
              e
              ∙ ap some (of_kind v (string text) (string_kind (kind v) text k) ∙ ap text_value same)
        ]
      ]

  is_batch_request_iff :
      (jv : Value)
      → (Protocol.is_batch_request jv ≡ true) ↔ ((arr : List Value) × (jv ≡ value (array arr)))
  unfolding Protocol.is_batch_request
  is_batch_request_iff jv = (
    λ h. (let (arr, e) = array_kind (kind jv) h in (arr, of_kind jv (array arr) e)),
    λ h. ground (arith, h.1, kind-value (array h.0)),
  )

  -- The protocol functions keep what their comments say. Parsing undoes each way of serialising,
  -- under the conditions of the round trips: a request alone gives a list of that one. A parser
  -- throws a ParseError exactly on a text that is no JSON, and nothing but an InvalidRequest on
  -- others. `validate_version` holds of the objects whose "jsonrpc" is the text "2.0", and
  -- `is_batch_request` of the arrays.
  pub protocol_api-Promises : Promises protocol_api
  protocol_api-Promises = record {
    one_request = parse_request-serialize_request;
    batch_request = parse_request-serialize_batch_request;
    one_response = parse_response-serialize_response;
    batch_response = parse_batch_response-serialize_batch_response;
    request_throws = parse_request-RefusesOnly;
    response_throws = λ text. (parse_response-RefusesOnly text).0;
    batch_response_throws = λ text. (parse_response-RefusesOnly text).1;
    version = validate_version_iff;
    batch = is_batch_request_iff;
  }
