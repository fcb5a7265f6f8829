-- ===== src/Errors.antt =====
-- include/jsonrpc/errors.hpp: the error class, and what C++ code may throw.
pub mod ErrorCode
use native.Mathlib.Omega.{arith}
use Prim.Native.String.{◌++◌}
use jsonrpc_for_cpp.Prelude.{
  ℕ, Bool, true, false, String, Option, none, some, ◌≡◌, if◌then◌else◌, List, ◌∷◌,
}
use jsonrpc_for_cpp.Prelude.Int.{ℤ, to_string}
use jsonrpc_for_cpp.Json.{JsonLib, null, int64, object, null_value, text_value, is_null}

module _ ⦃J : JsonLib⦄ where
  open J use {Value, Object, value, empty, insert}

  pub record Error : Type 0 where
    pub code : ℤ
    pub message : String
    pub extra : Value
    pub what : String

  pub format_what : ℤ → String → String
  format_what code message = "JSON-RPC Error [" ++ to_string code ++ "]: " ++ message

  -- `Error(code, message)`
  unfoldable pub error_of : ℤ → String → Error
  unfolding format_what
  error_of code message = record {
    code = code;
    message = message;
    extra = null_value;
    what = format_what code message;
  }

  -- `Error(code, message, data)`
  unfoldable pub error_with : ℤ → String → Value → Error
  unfolding format_what
  error_with code message extra = record {
    code = code;
    message = message;
    extra = extra;
    what = format_what code message;
  }

  unfoldable pub has_data : Error → Bool
  has_data e = if is_null e.extra then false else true

  -- `Error::to_json`
  unfoldable pub error_json : Error → Object
  error_json e =
      let obj =
        insert "message" (text_value e.message) (insert "code" (value (int64 e.code)) empty) in
      if is_null e.extra then obj else insert "data" e.extra obj
