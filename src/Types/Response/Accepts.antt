-- ===== src/Types/Response/Accepts.antt =====
-- Which values `Response::from_json` accepts, and how it refuses the others.
use jsonrpc_for_cpp.Errors.ErrorCode
use jsonrpc_for_cpp.Types.Request.Accepts.{has_version_iff}
use native.Mathlib.Omega.{arith}
use jsonrpc_for_cpp.Prelude.Int.{ℤ, to_int32}
use jsonrpc_for_cpp.Errors.{Error, error_of, error_with}
use jsonrpc_for_cpp.Results.{ok, OnlyCode, Result-cases}
use jsonrpc_for_cpp.Json.{JsonLib, as_object, string_at, int64_at, or_null}
use jsonrpc_for_cpp.Prelude.{none, some, ◌≡◌, Option-cases, String, inl, ◌↔◌, ◌⊎◌, inr, c_str}
use jsonrpc_for_cpp.Types.Response.{from_json, Response, read_error, read_outcome, success, failure}

module _ ⦃J : JsonLib⦄ where
  open J use {Value, Object, kind, value, find}

  -- Every refusal is an `Error` with the code InvalidRequest.
  pub from_json-OnlyCode : (jv : Value) → OnlyCode ErrorCode.invalid_request (from_json jv)
  unfolding from_json read_outcome read_error error_of
  from_json-OnlyCode jv = ground arith

  -- The error that an error object stands for.
  pub record DescribesError (v : Value) (e : Error) : Type 0 where
    pub err : Object
    pub wide : ℤ
    pub text : String
    pub object_found : as_object v ≡ some err
    pub code_found : int64_at "code" err ≡ some wide
    pub message_found : string_at "message" err ≡ some text
    pub made : e ≡ error_with (to_int32 wide) (c_str text) (or_null (find "data" err))

  -- The members of an object that `from_json` reads, against the response that it returns.
  pub record Describes (obj : Object) (r : Response) : Type 0 where
    pub version : string_at "jsonrpc" obj ≡ some "2.0"
    pub id_found : find "id" obj ≡ some r.id
    pub outcome :
        ((find "error" obj ≡ none)
          × ((v : Value) × (find "result" obj ≡ some v) × (r ≡ success v r.id)))
        ⊎ ((find "result" obj ≡ none)
            × ((v : Value) × (e : Error) × (find "error" obj ≡ some v)
                × DescribesError v e
                × (r ≡ failure e r.id)))

  read_error_sound : (v : Value) (e : Error) → read_error v ≡ ok e → DescribesError v e
  unfolding read_error error_of error_with
  read_error_sound v e h = elim (Option-cases (as_object v)) [
    | inl k ↦ ground arith
    | inr (err, k) ↦ elim (Option-cases (int64_at "code" err)) [
      | inl m ↦ ground arith
      | inr (wide, m) ↦ elim (Option-cases (string_at "message" err)) [
        | inl n ↦ ground arith
        | inr (text, n) ↦ record {
          err = err;
          wide = wide;
          text = text;
          object_found = k;
          code_found = m;
          message_found = n;
          made = ground arith;
        }
      ]
    ]
  ]

  read_error_complete : (v : Value) (e : Error) → DescribesError v e → read_error v ≡ ok e
  unfolding read_error error_of error_with
  read_error_complete v e d = ground arith

  read_outcome_sound :
      (obj : Object) (id : Value) (r : Response)
      → string_at "jsonrpc" obj ≡ some "2.0"
      → find "id" obj ≡ some id
      → read_outcome (find "result" obj) (find "error" obj) id ≡ ok r
      → Describes obj r
  unfolding read_outcome
  read_outcome_sound obj id r hv hi h = elim (Option-cases (find "result" obj)) [
    | inl no_result ↦ elim (Option-cases (find "error" obj)) [
      | inl no_error ↦ ground arith
      | inr (v, e) ↦ elim (Result-cases (read_error v)) [
        | inl (x, k) ↦ record {
          version = hv;
          id_found = ground arith;
          outcome = inr (no_result, (v, x, e, read_error_sound v x k, ground arith));
        }
        | inr (x, k) ↦ ground arith
      ]
    ]
    | inr (w, e) ↦ record {
      version = hv;
      id_found = ground arith;
      outcome = inl (ground arith, (w, e, ground arith));
    }
  ]

  from_json_sound :
      (jv : Value) (r : Response)
      → from_json jv ≡ ok r
      → (obj : Object) × (as_object jv ≡ some obj) × Describes obj r
  unfolding from_json
  from_json_sound jv r e = elim (Option-cases (as_object jv)) [
    | inl h ↦ ground arith
    | inr (obj, h) ↦ elim (Option-cases (find "id" obj)) [
      | inl k ↦ ground arith
      | inr (id, k) ↦ (
        obj,
        h,
        read_outcome_sound obj id r ((has_version_iff obj).0 (ground arith)) k (ground arith),
      )
    ]
  ]

  from_json_complete :
      (jv : Value) (obj : Object) (r : Response)
      → as_object jv ≡ some obj
      → Describes obj r
      → from_json jv ≡ ok r
  unfolding from_json read_outcome
  from_json_complete jv obj r h d = elim d.outcome [
    | inl (no_error, (v, found, made)) ↦
        ground (arith, (has_version_iff obj).1 d.version, d.id_found)
    | inr (no_result, (v, e, found, described, made)) ↦
        ground
          (arith, (has_version_iff obj).1 d.version, d.id_found, read_error_complete v e described)
  ]

  -- A value is read as a response exactly when it is an object with the version 2.0, an
  -- identifier, and either a result or an error object, and the response holds these; the code of
  -- an error is narrowed to `int` and its message cut at the first NUL.
  pub response_from_json_iff :
      (jv : Value) (r : Response)
      → (from_json jv ≡ ok r) ↔ ((obj : Object) × (as_object jv ≡ some obj) × Describes obj r)
  response_from_json_iff jv r =
      (from_json_sound jv r, λ w. let (obj, found, d) = w in from_json_complete jv obj r found d)
