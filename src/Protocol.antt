-- ===== src/Protocol.antt =====
-- include/jsonrpc/detail/protocol.hpp and impl/protocol.ipp: texts to requests and responses, and
-- back.
pub mod RoundTrip
pub mod Refusals
pub mod Contract
use jsonrpc_for_cpp.Errors.ErrorCode
use jsonrpc_for_cpp.Errors.{error_of}
use jsonrpc_for_cpp.Results.{Result, throw, ok, collect, rpc, ◌>>=◌, require_some}
use jsonrpc_for_cpp.Types.Response.{Response, result}
use jsonrpc_for_cpp.Types.Request.{Request, invalid}
use jsonrpc_for_cpp.Json.{
  JsonLib, as_string, is_array, array, object, parsed, failed, as_array, as_object,
}
use Prim.Native.String.{◌++◌ as append}
use jsonrpc_for_cpp.Prelude.{List, [], ◌∷◌, map, none, some, Bool, true, false, str_eq, String}
use jsonrpc_for_cpp.Types.Request
use jsonrpc_for_cpp.Types.Response

module _ ⦃J : JsonLib⦄ where
  open J use {Value, Object, kind, value, find, parse, serialize}

  unfoldable pub validate_version : Object → Bool
  validate_version obj = elim (find "jsonrpc" obj) [
    | none ↦ false
    | some version ↦ elim (as_string version) [ none ↦ false | some text ↦ str_eq text "2.0" ]
  ]

  unfoldable pub is_batch_request : Value → Bool
  is_batch_request jv = is_array jv

  -- The `try { boost::json::parse } catch` that three functions begin with.
  unfoldable pub parse_text : String → Result Value
  parse_text text = elim (parse text) [
    | parsed jv ↦ ok jv
    | failed what ↦ throw (rpc (error_of ErrorCode.parse_error (append "JSON 解析失败: " what)))
  ]

  -- The elements of a batch.
  unfoldable pub parse_elements : List Value → Result (List Request)
  parse_elements [] = throw (invalid "批量请求不能为空")
  parse_elements (elem ∷ elems) = collect Request.from_json (elem ∷ elems)

  unfoldable pub parse_single : Value → Result (List Request)
  parse_single jv = do request ← Request.from_json jv; ok (request ∷ [])

  unfoldable pub parse_request : String → Result (List Request)
  parse_request json_str = do
    jv ← parse_text json_str
    elim (as_array jv) [ some arr ↦ parse_elements arr | none ↦ parse_single jv ]

  abbrev pub request_value : Request → Value
  request_value r = value (object (Request.to_json r))

  abbrev pub response_value : Response → Value
  response_value r = value (object (Response.to_json r))

  unfoldable pub serialize_response : Response → String
  serialize_response response = serialize (response_value response)

  unfoldable pub serialize_batch_response : List Response → String
  serialize_batch_response responses = serialize (value (array (map response_value responses)))

  unfoldable pub serialize_request : Request → String
  serialize_request request = serialize (request_value request)

  unfoldable pub serialize_batch_request : List Request → String
  serialize_batch_request requests = serialize (value (array (map request_value requests)))

  unfoldable pub parse_response : String → Result Response
  parse_response json_str = do
    jv ← parse_text json_str
    obj ← require_some (as_object jv) (invalid "响应必须是 JSON 对象")
    Response.from_json (value (object obj))

  -- An element of a batch response.
  unfoldable pub parse_element : Value → Result Response
  parse_element elem = do
    obj ← require_some (as_object elem) (invalid "响应数组中的元素必须是对象")
    Response.from_json (value (object obj))

  unfoldable pub parse_batch_response : String → Result (List Response)
  parse_batch_response json_str = do
    jv ← parse_text json_str
    arr ← require_some (as_array jv) (invalid "批量响应必须是 JSON 数组")
    collect parse_element arr
