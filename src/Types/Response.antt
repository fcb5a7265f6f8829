-- ===== src/Types/Response.antt =====
-- class Response of include/jsonrpc/types.hpp and impl/types.ipp.
pub mod RoundTrip
pub mod Accepts
use jsonrpc_for_cpp.Prelude.{Bool, true, false, Option, none, some, c_str, if◌then◌else◌}
use jsonrpc_for_cpp.Prelude.Int.{to_int32}
use jsonrpc_for_cpp.Json.{JsonLib, object, null_value, text_value, as_object, string_at, int64_at}
use jsonrpc_for_cpp.Errors.ErrorCode
use jsonrpc_for_cpp.Errors.{Error, error_of, error_with, error_json}
use jsonrpc_for_cpp.Results.{std_exception, Result, ok, throw, ◌>>=◌, ◌>>◌, require, require_some}
use jsonrpc_for_cpp.Types.Request.{invalid, has_version}

module _ ⦃J : JsonLib⦄ where
  open J use {Value, Object, value, empty, find, insert}

  pub record Response : Type 0 where
    pub is_error : Bool
    pub result_value : Value
    pub error_value : Error
    pub id : Value

  -- `Response(result, id)`; the error is a placeholder.
  unfoldable pub success : Value → Value → Response
  success result id = record {
    is_error = false;
    result_value = result;
    error_value = error_of ErrorCode.internal_error "";
    id = id;
  }

  -- `Response(error, id)`
  unfoldable pub failure : Error → Value → Response
  failure error id = record {
    is_error = true;
    result_value = null_value;
    error_value = error;
    id = id;
  }

  -- `Response::result` and `Response::error`, which throw `std::logic_error`.
  unfoldable pub result : Response → Result Value
  result r = if r.is_error then throw (std_exception "错误响应没有 result") else ok r.result_value

  unfoldable pub error : Response → Result Error
  error r = if r.is_error then ok r.error_value else throw (std_exception "成功响应没有 error")

  -- The error object of an error response.
  unfoldable pub read_error : Value → Result Error
  read_error v = do
    err ← require_some (as_object v) (invalid "error 必须是对象")
    wide ← require_some (int64_at "code" err) (invalid "error.code 缺失或无效")
    text ← require_some (string_at "message" err) (invalid "error.message 缺失或无效")
    let code = to_int32 wide
    let message = c_str text
    ok (elim (find "data" err) [
      | none ↦ error_of code message
      | some extra ↦ error_with code message extra
    ])

  unfoldable pub read_outcome : Option Value → Option Value → Value → Result Response
  unfolding success failure
  read_outcome (some result) (some error) id = throw (invalid "响应不能同时包含 result 和 error")
  read_outcome none none id = throw (invalid "响应必须包含 result 或 error")
  read_outcome (some result) none id = ok (success result id)
  read_outcome none (some error) id = do e ← read_error error; ok (failure e id)

  unfoldable pub from_json : Value → Result Response
  from_json jv = do
    obj ← require_some (as_object jv) (invalid "响应必须是 JSON 对象")
    require (has_version obj) (invalid "缺少或无效的 jsonrpc 版本字段")
    id ← require_some (find "id" obj) (invalid "缺少 id 字段")
    read_outcome (find "result" obj) (find "error" obj) id

  unfoldable pub to_json : Response → Object
  unfolding error_json
  to_json r =
      let head = insert "jsonrpc" (text_value "2.0") empty in
      let obj =
        if r.is_error
        then insert "error" (value (object (error_json r.error_value))) head
        else insert "result" r.result_value head in
      insert "id" r.id obj
