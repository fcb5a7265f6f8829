-- ===== src/Tests/Types.antt =====
-- Requests and responses at concrete JSON.
use jsonrpc_for_cpp.Json.{as_object}
use jsonrpc_for_cpp.Prelude.{true, false, some, ◌≡◌, refl, ◌↔◌, c_str}
use jsonrpc_for_cpp.Prelude.Int.{pos}
use jsonrpc_for_cpp.Results.{ok}
use jsonrpc_for_cpp.Types.Request
use jsonrpc_for_cpp.Types.Request.{Request, has_version, read_params, read_id}
use jsonrpc_for_cpp.Types.Response
use jsonrpc_for_cpp.Types.Response.{Response, success, failure}
use jsonrpc_for_cpp.Tests.Sample.{
  sample_json, null, int64, array, cons, nil, request_tree, notification_tree, success_tree,
  Members,
}

abbrev pub add_request : Request
add_request = record {
  method = "add";
  params = array (cons (int64 (pos 2)) (cons (int64 (pos 3)) nil));
  id = int64 (pos 1);
  has_id = true;
}

abbrev pub log_request : Request
log_request = record { method = "log"; params = null; id = null; has_id = false }

pub add_request-IsValid : Request.RoundTrip.IsValid add_request
add_request-IsValid = record { params = refl; id = refl }

pub log_request-IsValid : Request.RoundTrip.IsValid log_request
log_request-IsValid = record { params = refl; id = refl }

reads_request : Request.from_json request_tree ≡ ok add_request
unfolding Request.from_json has_version read_params read_id c_str
reads_request = refl

reads_notification : Request.from_json notification_tree ≡ ok log_request
unfolding Request.from_json has_version read_params read_id c_str
reads_notification = refl

request_from_json_iff_example : (Request.from_json request_tree ≡ ok add_request) ↔ (
    (obj : Members) × (as_object request_tree ≡ some obj)
    × Request.Accepts.Describes obj add_request)
request_from_json_iff_example = Request.Accepts.request_from_json_iff request_tree add_request

response_from_json_iff_example :
    (Response.from_json success_tree ≡ ok (success (int64 (pos 5)) (int64 (pos 1)))) ↔ (
      (obj : Members) × (as_object success_tree ≡ some obj)
      × Response.Accepts.Describes obj (success (int64 (pos 5)) (int64 (pos 1))))
response_from_json_iff_example =
    Response.Accepts.response_from_json_iff success_tree (success (int64 (pos 5)) (int64 (pos 1)))
