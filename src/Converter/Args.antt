-- ===== src/Converter/Args.antt =====
-- `extract_args` of include/jsonrpc/detail/type_converter.hpp: a JSON array to the tuple of a
-- function's arguments. A list of conversions stands for the pack of argument types.
use jsonrpc_for_cpp.IndexSequence.{elements_at, make_index_sequence}
use jsonrpc_for_cpp.Errors.ErrorCode
use native.Mathlib.Omega.{arith}
use jsonrpc_for_cpp.Errors.{error_of}
use jsonrpc_for_cpp.Results.{
  Result, ok, OnlyCode, require, throw, ◌>>=◌, ◌>>◌, foreign, require_some,
}
use jsonrpc_for_cpp.Json.{JsonLib, array, as_array, kind-value, is_null, is_array}
pub mod Laws
use Prim.Native.String.{◌++◌ as append}
use jsonrpc_for_cpp.Prelude.{
  List, [], ◌∷◌, map, none, some, Bool, true, false, ℕ, String, ◌≡◌, length, All, Option, ap,
  to_string, refl, suc, not, ◌==◌, ◌⊎◌, ◌&&◌,
}
use jsonrpc_for_cpp.Converter.{Converter, mismatch}

module _ ⦃J : JsonLib⦄ where
  open J use {Value, Object, Double, kind, value}

  -- One type of a parameter pack, with its conversion.
  pub record Param : Type 1 where
    pub Arg : Type 0
    pub converter : Converter Arg

  -- `std::tuple<Args...>`
  abbrev pub Tuple : List Param → Type 0
  Tuple [] = Unit
  Tuple (p ∷ ps) = p.Arg × Tuple ps

  -- The arguments in order. The clause without a value is not reached: the lengths agree.
  unfoldable pub convert_args : (ps : List Param) → List Value → Result (Tuple ps)
  convert_args [] arr = ok tt
  convert_args (p ∷ ps) [] = throw foreign
  convert_args (p ∷ ps) (v ∷ vs) = do
    arg ← p.converter.from_json v
    args ← convert_args ps vs
    ok (arg, args)

  count_mismatch : ℕ → ℕ → String
  count_mismatch expected actual =
      append (append (append "参数数量不匹配：期望 " (to_string expected)) " 个，实际 ")
        (append (to_string actual) " 个")

  unfoldable pub extract_args_impl : (ps : List Param) → List Value → List ℕ → Result (Tuple ps)
  unfolding convert_args count_mismatch elements_at
  extract_args_impl ps arr is =
      require (length arr == length is) (mismatch (count_mismatch (length is) (length arr)))
      >> convert_args ps (elements_at is arr)

  -- `!as_array().empty()`, of a value that is an array.
  abbrev is_filled : Option (List Value) → Bool
  is_filled none = false
  is_filled (some []) = false
  is_filled (some (v ∷ vs)) = true

  -- The specialisation for no arguments also takes null.
  unfoldable pub extract_no_args : Value → Result (Unit {0})
  extract_no_args params = do
    require (not (not (is_null params) && not (is_array params)))
        (mismatch "params 必须是 null 或 array")
    require (not (is_filled (as_array params))) (mismatch "期望无参数，但提供了参数")
    ok tt

  unfoldable pub extract_args : (ps : List Param) → Value → Result (Tuple ps)
  unfolding extract_args_impl extract_no_args make_index_sequence
  extract_args [] params = extract_no_args params
  extract_args (p ∷ ps) params = do
    arr ← require_some (as_array params) (mismatch "params 必须是 array")
    extract_args_impl (p ∷ ps) arr (make_index_sequence (length (p ∷ ps)))

  -- The array that the client builds from its arguments, `params.push_back(to_json(arg))...`.
  unfoldable pub pack_args : (ps : List Param) → Tuple ps → List Value
  pack_args [] args = []
  pack_args (p ∷ ps) (arg, args) = p.converter.to_json arg ∷ pack_args ps args
