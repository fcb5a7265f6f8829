-- ===== src/Types/Request/RoundTrip.antt =====
-- Reading back what `Request::to_json` writes.
use jsonrpc_for_cpp.Prelude.{true, String, none, some, ◌≡◌, c_str, if◌then◌else◌}
use jsonrpc_for_cpp.Json.{JsonLib, object, string, null_value, is_null, kind-value}
use jsonrpc_for_cpp.Results.{ok}
use jsonrpc_for_cpp.Types.Request.{
  Request, params_shape, id_shape, read_params, read_id, has_version, from_json, to_json,
}
use jsonrpc_for_cpp.Types.Request.Fields.{
  find-to_json_version, find-to_json_method, find-to_json_params, find-to_json_id,
}
use native.Mathlib.Omega.{arith}

module _ ⦃J : JsonLib⦄ where
  open J use {Value, Object, kind, value, find, value-kind}

  -- The requests that the constructors and `from_json` are meant to hold: structured or absent
  -- parameters, an identifier of one of the allowed kinds, and none in a notification.
  pub record IsValid (r : Request) : Type 0 where
    pub params : params_shape r.params ≡ true
    pub id : (if r.has_id then id_shape r.id else is_null r.id) ≡ true

  is_null-eq : (v : Value) → is_null v ≡ true → v ≡ null_value
  is_null-eq v h = ground (arith, value-kind v)

  read_params-to_json :
      (p : Value) → params_shape p ≡ true → read_params (if is_null p then none else some p) ≡ ok p
  unfolding read_params
  read_params-to_json p h = ground (arith, value-kind p)

  read_id-to_json :
      (r : Request) (m : String)
      → (if r.has_id then id_shape r.id else is_null r.id) ≡ true
      → read_id m r.params (if r.has_id then some r.id else none) ≡ ok (record r { method = m })
  unfolding read_id
  read_id-to_json r m h = ground (arith, value-kind r.id)

  -- A valid request is read back from its own JSON unchanged, but for its method name, which is
  -- cut at the first NUL.
  pub from_json-to_json :
      (r : Request)
      → IsValid r
      → from_json (value (object (to_json r))) ≡ ok (record r { method = c_str r.method })
  unfolding from_json has_version
  from_json-to_json r v = ground (
    arith,
    kind-value (object (to_json r)),
    kind-value (string "2.0"),
    kind-value (string r.method),
    find-to_json_version r,
    find-to_json_method r,
    find-to_json_params r,
    find-to_json_id r,
    read_params-to_json r.params v.params,
    read_id-to_json r (c_str r.method) v.id,
  )
