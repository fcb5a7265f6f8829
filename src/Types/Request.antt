-- ===== src/Types/Request.antt =====
-- class Request of include/jsonrpc/types.hpp and impl/types.ipp. A notification is a request with `has_id` false.
pub mod Fields
pub mod RoundTrip
pub mod Accepts
use jsonrpc_for_cpp.Prelude.{
  Bool, true, false, ◌&&◌, not, String, Option, none, some, str_eq, c_str, if◌then◌else◌, ◌≡◌, refl,
}
use jsonrpc_for_cpp.Json.{
  JsonLib, object, null_value, text_value, is_null, is_string, is_number, is_array, is_object,
  as_object, string_at,
}
use jsonrpc_for_cpp.Errors.ErrorCode
use jsonrpc_for_cpp.Errors.{error_of}
use jsonrpc_for_cpp.Results.{Exception, rpc, Result, ok, throw, ◌>>=◌, ◌>>◌, require, require_some}

module _ ⦃J : JsonLib⦄ where
  open J use {Value, Object, empty, find, insert}

  pub record Request : Type 0 where
    pub method : String
    pub params : Value
    pub id : Value
    pub has_id : Bool

  -- `Request(method, params, id)`
  unfoldable pub request_of : String → Value → Value → Request
  request_of method params id = record { method = method; params = params; id = id; has_id = true }

  -- `Request(method, params)`
  unfoldable pub notification_of : String → Value → Request
  notification_of method params = record {
    method = method;
    params = params;
    id = null_value;
    has_id = false;
  }

  -- `Request()`
  default_request : Request
  default_request = record { method = ""; params = null_value; id = null_value; has_id = false }

  -- It is a notification of no method.
  default_request-notification_of : default_request ≡ notification_of "" null_value
  unfolding default_request notification_of
  default_request-notification_of = refl

  -- The exception of every refusal in `from_json`.
  abbrev pub invalid : String → Exception
  invalid message = rpc (error_of ErrorCode.invalid_request message)

  -- The version test, which `Response::from_json` repeats.
  unfoldable pub has_version : Object → Bool
  has_version obj = elim (string_at "jsonrpc" obj) [ none ↦ false | some v ↦ str_eq v "2.0" ]

  abbrev pub params_shape : Value → Bool
  params_shape params =
      not (not (is_array params) && not (is_object params) && not (is_null params))

  abbrev pub id_shape : Value → Bool
  id_shape id = not (not (is_string id) && not (is_number id) && not (is_null id))

  unfoldable pub read_params : Option Value → Result Value
  read_params none = ok null_value
  read_params (some params) =
      require (params_shape params) (invalid "params 必须是 array 或 object") >> ok params

  unfoldable pub read_id : String → Value → Option Value → Result Request
  unfolding request_of notification_of
  read_id method params none = ok (notification_of method params)
  read_id method params (some id) =
      require (id_shape id) (invalid "id 必须是 string、number 或 null")
      >> ok (request_of method params id)

  unfoldable pub from_json : Value → Result Request
  from_json jv = do
    obj ← require_some (as_object jv) (invalid "请求必须是 JSON 对象")
    require (has_version obj) (invalid "缺少或无效的 jsonrpc 版本字段")
    name ← require_some (string_at "method" obj) (invalid "缺少或无效的 method 字段")
    params ← read_params (find "params" obj)
    read_id (c_str name) params (find "id" obj)

  unfoldable pub to_json : Request → Object
  to_json r =
      let head =
        insert "method" (text_value r.method) (insert "jsonrpc" (text_value "2.0") empty) in
      let obj = if is_null r.params then head else insert "params" r.params head in
      if r.has_id then insert "id" r.id obj else obj
