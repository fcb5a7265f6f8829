-- ===== src/Types/Response/RoundTrip.antt =====
-- Reading back what `Response::to_json` writes.
use native.Mathlib.Omega.{arith}
use jsonrpc_for_cpp.Prelude.Int.{ℤ, InRange, to_int32_id}
use jsonrpc_for_cpp.Types.Request.{has_version}
use jsonrpc_for_cpp.Errors.{Error, error_json, error_with, error_of}
use jsonrpc_for_cpp.Results.{ok}
use jsonrpc_for_cpp.Json.{JsonLib, int64, object, text_value, fields, kind-value, string, is_null}
use jsonrpc_for_cpp.Prelude.{none, some, ◌≡◌, String, ◌^◌, c_str, if◌then◌else◌}
use jsonrpc_for_cpp.Types.Response.{
  from_json, to_json, read_error, read_outcome, success, failure, Response,
}

module _ ⦃J : JsonLib⦄ where
  open J use {Value, Object, kind, value, find, value-kind}

  module _ (e : Error) where
    find-error_json_code : find "code" (error_json e) ≡ some (value (int64 e.code))
    unfolding error_json
    find-error_json_code = simp fields

    find-error_json_message : find "message" (error_json e) ≡ some (text_value e.message)
    unfolding error_json
    find-error_json_message = simp fields

    find-error_json_data :
        find "data" (error_json e) ≡ (if is_null e.extra then none else some e.extra)
    unfolding error_json
    find-error_json_data = simp fields

  -- A success is read back unchanged.
  pub from_json-to_json_success :
      (result id : Value)
      → from_json (value (object (to_json (success result id)))) ≡ ok (success result id)
  unfolding from_json has_version read_outcome
  from_json-to_json_success result id = ground (
    arith,
    kind-value (object (to_json (success result id))),
    kind-value (string "2.0"),
    found_version,
    found_id,
    found_result,
    found_error,
  )
    where
      found_version : find "jsonrpc" (to_json (success result id)) ≡ some (text_value "2.0")
      found_version = unfold to_json success in simp fields

      found_id : find "id" (to_json (success result id)) ≡ some id
      found_id = unfold to_json success in simp fields

      found_result : find "result" (to_json (success result id)) ≡ some result
      found_result = unfold to_json success in simp fields

      found_error : find "error" (to_json (success result id)) ≡ none
      found_error = unfold to_json success in simp fields

  read_error-error_json :
      (code : ℤ) (message : String) (extra : Value)
      → InRange (2 ^ 31) code
      → read_error (value (object (error_json (error_with code message extra))))
        ≡ ok (error_with code (c_str message) extra)
  unfolding read_error error_with error_of
  read_error-error_json code message extra h =
      let e = error_with code message extra in
      ground (
        arith,
        kind-value (object (error_json e)),
        kind-value (int64 code),
        kind-value (string message),
        find-error_json_code e,
        find-error_json_message e,
        find-error_json_data e,
        to_int32_id code h,
        value-kind extra,
      )

  -- An error response whose code is in the range of `int` is read back from its own JSON with its
  -- code, data and identifier; its message is cut at the first NUL.
  pub from_json-to_json_failure :
      (code : ℤ) (message : String) (extra id : Value)
      → InRange (2 ^ 31) code
      → from_json (value (object (to_json (failure (error_with code message extra) id))))
        ≡ ok (failure (error_with code (c_str message) extra) id)
  unfolding from_json has_version read_outcome
  from_json-to_json_failure code message extra id h = ground (
    arith,
    kind-value (object (to_json r)),
    kind-value (string "2.0"),
    found_version,
    found_id,
    found_result,
    found_error,
    read_error-error_json code message extra h,
  )
    where
      r : Response
      r = failure (error_with code message extra) id

      found_version : find "jsonrpc" (to_json r) ≡ some (text_value "2.0")
      found_version = unfold to_json failure in simp fields

      found_id : find "id" (to_json r) ≡ some id
      found_id = unfold to_json failure in simp fields

      found_result : find "result" (to_json r) ≡ none
      found_result = unfold to_json failure in simp fields

      found_error :
          find "error" (to_json r)
          ≡ some (value (object (error_json (error_with code message extra))))
      found_error = unfold to_json failure in simp fields
