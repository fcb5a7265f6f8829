-- ===== src/Types/Request/Fields.antt =====
-- What `Request::to_json` writes under each key.
use jsonrpc_for_cpp.Prelude.{none, some, ◌≡◌, if◌then◌else◌}
use jsonrpc_for_cpp.Json.{JsonLib, text_value, is_null, fields}
use jsonrpc_for_cpp.Types.Request.{Request, to_json}

module _ ⦃J : JsonLib⦄ where
  open J use {find}

  module _ (r : Request) where
    pub find-to_json_version : find "jsonrpc" (to_json r) ≡ some (text_value "2.0")
    unfolding to_json
    find-to_json_version = simp fields

    pub find-to_json_method : find "method" (to_json r) ≡ some (text_value r.method)
    unfolding to_json
    find-to_json_method = simp fields

    pub find-to_json_params :
        find "params" (to_json r) ≡ (if is_null r.params then none else some r.params)
    unfolding to_json
    find-to_json_params = simp fields

    pub find-to_json_id : find "id" (to_json r) ≡ (if r.has_id then some r.id else none)
    unfolding to_json
    find-to_json_id = simp fields
