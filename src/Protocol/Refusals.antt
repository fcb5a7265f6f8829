-- ===== src/Protocol/Refusals.antt =====
-- What the parsers refuse, and with which error.
use native.Mathlib.Omega.{arith}
use jsonrpc_for_cpp.Types.Request.{Request}
use jsonrpc_for_cpp.Errors.ErrorCode
use jsonrpc_for_cpp.Errors.{error_of}
use jsonrpc_for_cpp.Results.{
  OnlyCode, Result, Exception, Fails, collect-OnlyCode, ok, Yields, collect_sound, throw,
  collect_complete, collect_refused,
}
use jsonrpc_for_cpp.Protocol.{
  parse_element, parse_elements, parse_request, parse_response, parse_single, parse_batch_response,
  parse_text,
}
use jsonrpc_for_cpp.Json.{JsonLib, Parsed-cases, failed, parsed, as_array, as_object, object}
use jsonrpc_for_cpp.Prelude.{
  List, [], ◌∷◌, some, ◌≡◌, String, ◌≢◌, Option-cases, inl, inr, ◌⊎◌, ◌++◌, ◌↔◌, refl,
}
use jsonrpc_for_cpp.Types.Request
use jsonrpc_for_cpp.Types.Response

module _ ⦃J : JsonLib⦄ where
  open J use {Value, Object, kind, value, find, parse, serialize}

  -- The outcome of a parser on a text: a text that is no JSON gives a ParseError, and any other
  -- refusal is an InvalidRequest.
  abbrev pub RefusesOnly {ℓ} : {A : Type ℓ} → String → Result A → Type 0
  RefusesOnly text r =
      ((what : String) × (parse text ≡ failed what) × OnlyCode ErrorCode.parse_error r × Fails r)
      ⊎ ((jv : Value) × (parse text ≡ parsed jv) × OnlyCode ErrorCode.invalid_request r)

  parse_elements-OnlyCode :
      (arr : List Value) → OnlyCode ErrorCode.invalid_request (parse_elements arr)
  unfolding parse_elements error_of
  parse_elements-OnlyCode [] = refl
  parse_elements-OnlyCode (v ∷ vs) =
      collect-OnlyCode Request.from_json ErrorCode.invalid_request (v ∷ vs)
        Request.Accepts.from_json-OnlyCode

  parse_single-OnlyCode : (jv : Value) → OnlyCode ErrorCode.invalid_request (parse_single jv)
  unfolding parse_single
  parse_single-OnlyCode jv = ground (arith, Request.Accepts.from_json-OnlyCode jv)

  -- `parse_request` throws a ParseError exactly on a text that is no JSON, and nothing but an
  -- InvalidRequest on any other.
  pub parse_request-RefusesOnly : (text : String) → RefusesOnly text (parse_request text)
  unfolding parse_request parse_text error_of
  parse_request-RefusesOnly text = elim (Parsed-cases (parse text)) [
    | inl (jv, h) ↦ inr (
      jv,
      h,
      elim (Option-cases (as_array jv)) [
        | inl k ↦ ground (arith, parse_single-OnlyCode jv)
        | inr (arr, k) ↦ ground (arith, parse_elements-OnlyCode arr)
      ],
    )
    | inr (what, h) ↦ inl (what, h, ground arith, ground arith)
  ]

  parse_element-OnlyCode : (v : Value) → OnlyCode ErrorCode.invalid_request (parse_element v)
  unfolding parse_element error_of
  parse_element-OnlyCode v = elim (Option-cases (as_object v)) [
    | inl h ↦ ground arith
    | inr (obj, h) ↦ ground (arith, Response.Accepts.from_json-OnlyCode (value (object obj)))
  ]

  -- `parse_response` and `parse_batch_response` throw a ParseError exactly on a text that is no
  -- JSON, and nothing but an InvalidRequest on any other.
  pub parse_response-RefusesOnly :
      (text : String)
      → RefusesOnly text (parse_response text) × RefusesOnly text (parse_batch_response text)
  unfolding parse_response parse_batch_response parse_text error_of
  parse_response-RefusesOnly text = elim (Parsed-cases (parse text)) [
    | inl (jv, h) ↦ (
      inr (
        jv,
        h,
        elim (Option-cases (as_object jv)) [
          | inl k ↦ ground arith
          | inr (obj, k) ↦ ground (arith, Response.Accepts.from_json-OnlyCode (value (object obj)))
        ],
      ),
      inr (
        jv,
        h,
        elim (Option-cases (as_array jv)) [
          | inl k ↦ ground arith
          | inr (arr, k) ↦ ground (
            arith,
            collect-OnlyCode parse_element ErrorCode.invalid_request arr parse_element-OnlyCode,
          )
        ],
      ),
    )
    | inr (what, h) ↦
        (inl (what, h, ground arith, ground arith), inl (what, h, ground arith, ground arith))
  ]

  -- A text that is a JSON array is parsed to some requests exactly when it is not empty and its
  -- elements are read as these requests, one by one in order.
  pub parse_request_batch_iff :
      (text : String) (v : Value) (arr : List Value) (rs : List Request)
      → parse text ≡ parsed v
      → as_array v ≡ some arr
      → (parse_request text ≡ ok rs) ↔ ((arr ≢ []) × Yields Request.from_json arr rs)
  unfolding parse_request parse_text parse_elements
  parse_request_batch_iff text v [] rs h k = (λ e. absurd (ground arith), λ w. absurd (w.0 refl))
  parse_request_batch_iff text v (x ∷ xs) rs h k = (
    λ e. (ground arith, collect_sound Request.from_json (x ∷ xs) rs (ground arith)),
    λ w. ground (arith, collect_complete Request.from_json (x ∷ xs) rs w.1),
  )

  -- The first element of a JSON array that is not read as a request refuses the whole batch, with
  -- that element's exception.
  pub parse_request_refused :
      (text : String) (v bad : Value) (before after : List Value) (rs : List Request)
      (e : Exception)
      → parse text ≡ parsed v
      → as_array v ≡ some (before ++ bad ∷ after)
      → Yields Request.from_json before rs
      → Request.from_json bad ≡ throw e
      → parse_request text ≡ throw e
  unfolding parse_request parse_text parse_elements
  parse_request_refused text v bad [] after rs e h k y b =
      ground (arith, collect_refused Request.from_json [] after rs bad e y b)
  parse_request_refused text v bad (x ∷ xs) after rs e h k y b =
      ground (arith, collect_refused Request.from_json (x ∷ xs) after rs bad e y b)
