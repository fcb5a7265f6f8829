-- ===== src/Converter.antt =====
-- include/jsonrpc/detail/type_converter.hpp: the conversions between JSON values and C++ types.
-- A specialisation of `json_converter` is a value of `Converter`. The range of a C++ integer is
-- a predicate on the unbounded one.
pub mod Args
pub mod RoundTrip
pub mod Wire
pub mod Map
pub mod CString
use jsonrpc_for_cpp.Errors.ErrorCode
use jsonrpc_for_cpp.Errors.{error_of}
use jsonrpc_for_cpp.Results.{Exception, Result, ok, rpc, ◌>>=◌, require_some, throw, collect}
use jsonrpc_for_cpp.Json.{
  JsonLib, array, bool, double, int64, null_value, text_value, uint64, string, as_array,
}
use jsonrpc_for_cpp.Prelude.{
  List, [], ◌∷◌, map, none, some, Bool, true, false, ℕ, String, Option, c_str,
}
use jsonrpc_for_cpp.Prelude.Int.{ℤ, to_int32}

module _ ⦃J : JsonLib⦄ where
  open J use {Value, Object, Double, kind, value}

  -- `json_converter<T>`
  pub record Converter (T : Type 0) : Type 0 where
    pub from_json : Value → Result T
    pub to_json : T → Value

  abbrev pub mismatch : String → Exception
  mismatch message = rpc (error_of ErrorCode.invalid_params message)

  unfoldable pub int_from_json : Value → Result ℤ
  int_from_json jv = elim (kind jv) [ int64 z ↦ ok (to_int32 z) | _ ↦ throw (mismatch "期望 int 类型") ]

  abbrev pub int_converter : Converter ℤ
  int_converter = record { from_json = int_from_json; to_json = λ z. value (int64 z) }

  unfoldable pub int64_from_json : Value → Result ℤ
  int64_from_json jv = elim (kind jv) [ int64 z ↦ ok z | _ ↦ throw (mismatch "期望 int64 类型") ]

  abbrev pub int64_converter : Converter ℤ
  int64_converter = record { from_json = int64_from_json; to_json = λ z. value (int64 z) }

  unfoldable pub uint64_from_json : Value → Result ℕ
  uint64_from_json jv = elim (kind jv) [ uint64 n ↦ ok n | _ ↦ throw (mismatch "期望 uint64 类型") ]

  abbrev pub uint64_converter : Converter ℕ
  uint64_converter = record { from_json = uint64_from_json; to_json = λ n. value (uint64 n) }

  -- The casts between the floating-point types and the integers are the machine's.
  pub record Floats : Type 1 where
    pub Float : Type 0
    pub of_int64 : ℤ → Double
    pub of_uint64 : ℕ → Double
    pub narrow : Double → Float
    pub widen : Float → Double

  module _ (F : Floats) where
    unfoldable pub double_from_json : Value → Result Double
    double_from_json jv = elim (kind jv) [
      | double d ↦ ok d
      | int64 z ↦ ok (F.of_int64 z)
      | uint64 n ↦ ok (F.of_uint64 n)
      | _ ↦ throw (mismatch "期望 double 类型")
    ]

    abbrev pub double_converter : Converter Double
    double_converter = record { from_json = double_from_json; to_json = λ d. value (double d) }

    unfoldable pub float_from_json : Value → Result F.Float
    unfolding double_from_json
    float_from_json jv = do d ← double_from_json jv; ok (F.narrow d)

    abbrev pub float_converter : Converter F.Float
    float_converter = record {
      from_json = float_from_json;
      to_json = λ x. value (double (F.widen x));
    }

  unfoldable pub bool_from_json : Value → Result Bool
  bool_from_json jv = elim (kind jv) [ bool b ↦ ok b | _ ↦ throw (mismatch "期望 bool 类型") ]

  abbrev pub bool_converter : Converter Bool
  bool_converter = record { from_json = bool_from_json; to_json = λ b. value (bool b) }

  unfoldable pub string_from_json : Value → Result String
  string_from_json jv = elim (kind jv) [
    | string s ↦ ok (c_str s)
    | _ ↦ throw (mismatch "期望 string 类型")
  ]

  abbrev pub string_converter : Converter String
  string_converter = record { from_json = string_from_json; to_json = text_value }

  -- `const char*`: a null pointer is written as the empty string.
  unfoldable pub c_string_to_json : Option String → Value
  c_string_to_json none = text_value ""
  c_string_to_json (some text) = text_value (c_str text)

  module _ {T : Type 0} (element : Converter T) where
    unfoldable pub vector_from_json : Value → Result (List T)
    vector_from_json jv = do
      arr ← require_some (as_array jv) (mismatch "期望 array 类型")
      collect element.from_json arr

    unfoldable pub vector_to_json : List T → Value
    vector_to_json xs = value (array (map element.to_json xs))

    abbrev pub vector_converter : Converter (List T)
    vector_converter = record { from_json = vector_from_json; to_json = vector_to_json }

  -- `json_converter<void>::to_json()`
  abbrev pub void_to_json : Unit {0} → Value
  void_to_json _ = null_value
