-- ===== src/Types/Request/Accepts.antt =====
-- Which values `Request::from_json` accepts, and how it refuses the others.
use native.Mathlib.Omega.{arith}
use text.Mathlib.TextEquality.{eq_iff}
use jsonrpc_for_cpp.Prelude.{
  true, false, no_nul, no_nul-c_str, String, none, some, ◌≡◌, c_str, Option-cases, inl, inr, ◌⊎◌,
  ◌↔◌, Option,
}
use jsonrpc_for_cpp.Json.{JsonLib, null, null_value, as_object, string_at, kind-value}
use jsonrpc_for_cpp.Errors.{error_of}
use jsonrpc_for_cpp.Results.{Result-cases, ok, OnlyCode}
use jsonrpc_for_cpp.Errors.ErrorCode
use jsonrpc_for_cpp.Types.Request.{
  has_version, Request, params_shape, id_shape, from_json, read_id, read_params,
}
use jsonrpc_for_cpp.Types.Request.RoundTrip.{IsValid}

module _ ⦃J : JsonLib⦄ where
  open J use {Value, Object, kind, value, find, value-kind}

  -- The members of an object that `from_json` reads, against the request that it returns.
  pub record Describes (obj : Object) (r : Request) : Type 0 where
    pub name : String
    pub version : string_at "jsonrpc" obj ≡ some "2.0"
    pub named : string_at "method" obj ≡ some name
    pub method : r.method ≡ c_str name
    pub params :
        ((find "params" obj ≡ none) × (r.params ≡ null_value))
        ⊎ ((find "params" obj ≡ some r.params) × (params_shape r.params ≡ true))
    pub id :
        ((find "id" obj ≡ none) × (r.has_id ≡ false) × (r.id ≡ null_value))
        ⊎ ((find "id" obj ≡ some r.id) × (r.has_id ≡ true) × (id_shape r.id ≡ true))

  pub has_version_iff :
      (obj : Object) → (has_version obj ≡ true) ↔ (string_at "jsonrpc" obj ≡ some "2.0")
  unfolding has_version
  has_version_iff obj = elim (Option-cases (string_at "jsonrpc" obj)) [
    | inl e ↦ ground arith
    | inr (v, e) ↦ ground (arith, eq_iff v "2.0")
  ]

  read_params_sound :
      (o : Option Value) (p : Value)
      → read_params o ≡ ok p
      → ((o ≡ none) × (p ≡ null_value)) ⊎ ((o ≡ some p) × (params_shape p ≡ true))
  unfolding read_params
  read_params_sound none p e = ground arith
  read_params_sound (some v) p e = ground arith

  read_id_sound :
      (m : String) (p : Value) (o : Option Value) (r : Request)
      → read_id m p o ≡ ok r
      → (r.method ≡ m)
        × (r.params ≡ p)
        × (((o ≡ none) × (r.has_id ≡ false) × (r.id ≡ null_value))
            ⊎ ((o ≡ some r.id) × (r.has_id ≡ true) × (id_shape r.id ≡ true)))
  unfolding read_id
  read_id_sound m p none r e = ground arith
  read_id_sound m p (some v) r e = ground arith

  members_sound :
      (jv : Value) (obj : Object) (name : String) (p : Value) (r : Request)
      → as_object jv ≡ some obj
      → string_at "method" obj ≡ some name
      → read_params (find "params" obj) ≡ ok p
      → from_json jv ≡ ok r
      → Describes obj r
  unfolding from_json
  members_sound jv obj name p r h k hp e =
      let last : read_id (c_str name) p (find "id" obj) ≡ ok r = ground arith in
      let version : has_version obj ≡ true = ground arith in
      let (method, params, id) = read_id_sound (c_str name) p (find "id" obj) r last in
      record {
        name = name;
        version = (has_version_iff obj).0 version;
        named = k;
        method = method;
        params = rw params (read_params_sound (find "params" obj) p hp);
        id = id;
      }

  from_json_sound :
      (jv : Value) (r : Request)
      → from_json jv ≡ ok r
      → (obj : Object) × (as_object jv ≡ some obj) × Describes obj r
  unfolding from_json
  from_json_sound jv r e = elim (Option-cases (as_object jv)) [
    | inl h ↦ ground arith
    | inr (obj, h) ↦ elim (Option-cases (string_at "method" obj)) [
      | inl k ↦ ground arith
      | inr (name, k) ↦ elim (Result-cases (read_params (find "params" obj))) [
        | inl (p, hp) ↦ (obj, h, members_sound jv obj name p r h k hp e)
        | inr (x, hp) ↦ ground arith
      ]
    ]
  ]

  from_json_complete :
      (jv : Value) (obj : Object) (r : Request)
      → as_object jv ≡ some obj
      → Describes obj r
      → from_json jv ≡ ok r
  unfolding from_json read_params read_id has_version
  from_json_complete jv obj r h d = ground arith

  -- Every refusal is an `Error` with the code InvalidRequest.
  pub from_json-OnlyCode : (jv : Value) → OnlyCode ErrorCode.invalid_request (from_json jv)
  unfolding from_json read_params read_id error_of
  from_json-OnlyCode jv = ground arith

  Describes-IsValid :
      (obj : Object) (r : Request) → Describes obj r → IsValid r × (no_nul r.method ≡ true)
  Describes-IsValid obj r d = (ground (arith, kind-value null), rw d.method (no_nul-c_str d.name))

  -- An accepted request is valid, and its method name holds no NUL.
  pub from_json-IsValid :
      (jv : Value) (r : Request) → from_json jv ≡ ok r → IsValid r × (no_nul r.method ≡ true)
  from_json-IsValid jv r e =
      let (obj, found, d) = from_json_sound jv r e in Describes-IsValid obj r d

  -- A value is read as a request exactly when it is an object with the version 2.0, a string as
  -- its method, and parameters and an identifier, each absent or of an allowed kind, and the
  -- request holds these, its name cut at the first NUL.
  pub request_from_json_iff :
      (jv : Value) (r : Request)
      → (from_json jv ≡ ok r) ↔ ((obj : Object) × (as_object jv ≡ some obj) × Describes obj r)
  request_from_json_iff jv r =
      (from_json_sound jv r, λ w. let (obj, found, d) = w in from_json_complete jv obj r found d)
