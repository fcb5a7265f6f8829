-- ===== src/Tests/Protocol.antt =====
-- The parsers and printers at concrete texts.
use native.Mathlib.Omega.{arith}
use jsonrpc_for_cpp.Json.{IsStable, parsed}
use jsonrpc_for_cpp.Results.{throw, ok}
use jsonrpc_for_cpp.Protocol.{request_value, response_value}
use jsonrpc_for_cpp.Protocol.RoundTrip.{Sendable, Sound, failed_with, succeeded}
use jsonrpc_for_cpp.Prelude.{true, false, [], ◌∷◌, ◌≡◌, refl, c_str, All}
use jsonrpc_for_cpp.Prelude.Int.{pos, to_string}
use jsonrpc_for_cpp.Errors.ErrorCode
use jsonrpc_for_cpp.Errors.{error_of, error_with, error_json}
use jsonrpc_for_cpp.Types.Request
use jsonrpc_for_cpp.Protocol.Contract.{Promises, protocol_api, protocol_api-Promises}
use jsonrpc_for_cpp.Types.Request.{Request, has_version, read_params, read_id, invalid}
use jsonrpc_for_cpp.Types.Response
use jsonrpc_for_cpp.Types.Response.{Response, success, failure}
use jsonrpc_for_cpp.Tests.Sample.{
  sample_json, null, int64, array, cons, nil, request_tree, bad_batch_tree, parse_tree, print_tree,
}
use jsonrpc_for_cpp.Tests.Types.{add_request, log_request, add_request-IsValid, log_request-IsValid}

pub add_request-Sendable : Sendable add_request
add_request-Sendable = record { valid = add_request-IsValid; clean = refl }

pub log_request-Sendable : Sendable log_request
log_request-Sendable = record { valid = log_request-IsValid; clean = refl }

pub add_request-IsStable : IsStable (request_value add_request)
unfolding Request.to_json parse_tree print_tree to_string
add_request-IsStable = refl

pub batch-IsStable :
    IsStable (array (cons (request_value add_request) (cons (request_value log_request) nil)))
unfolding Request.to_json parse_tree print_tree to_string
batch-IsStable = refl

pub batch-Sendable : All Sendable (add_request ∷ log_request ∷ [])
batch-Sendable = (add_request-Sendable, (log_request-Sendable, tt))

pub log_request-IsStable : IsStable (request_value log_request)
unfolding Request.to_json parse_tree print_tree to_string
log_request-IsStable = refl

abbrev pub sum_response : Response
sum_response = record {
  is_error = false;
  result_value = int64 (pos 5);
  error_value = error_of ErrorCode.internal_error "";
  id = int64 (pos 1);
}

pub sum_response-Sound : Sound sum_response
unfolding success
sum_response-Sound = succeeded (int64 (pos 5)) (int64 (pos 1))

pub sum_response-IsStable : IsStable (response_value sum_response)
unfolding Response.to_json parse_tree print_tree to_string
sum_response-IsStable = refl

abbrev missing_response : Response
missing_response = record {
  is_error = true;
  result_value = null;
  error_value = error_with ErrorCode.method_not_found "no such method" null;
  id = int64 (pos 2);
}

missing_response-Sound : Sound missing_response
unfolding failure
missing_response-Sound =
    failed_with ErrorCode.method_not_found "no such method" null (int64 (pos 2)) (omega arith) refl

responses-IsStable :
    IsStable
      (array (cons (response_value sum_response) (cons (response_value missing_response) nil)))
unfolding Response.to_json error_json error_with parse_tree print_tree to_string
responses-IsStable = refl

bad_batch_text : parse_tree (print_tree bad_batch_tree) ≡ parsed bad_batch_tree
unfolding parse_tree print_tree to_string
bad_batch_text = refl

reads_request : Request.from_json request_tree ≡ ok add_request
unfolding Request.from_json has_version read_params read_id c_str
reads_request = refl

refuses_number : Request.from_json (int64 (pos 7)) ≡ throw (invalid "请求必须是 JSON 对象")
unfolding Request.from_json
refuses_number = refl

protocol_api-Promises_example : Promises protocol_api
protocol_api-Promises_example = protocol_api-Promises
