-- ===== src/Tests/Converter.antt =====
-- The conversions and wrapped functions at concrete values.
use jsonrpc_for_cpp.Converter.Map.{map_from_json, IsAscending}
use native.Mathlib.Omega.{arith}
use jsonrpc_for_cpp.Converter.Wire.{int_from_json_wraps}
use jsonrpc_for_cpp.Converter.Args.Laws.{extract_args-pack_args}
use jsonrpc_for_cpp.Errors.{error_of}
use jsonrpc_for_cpp.Wrapper.{wrap, Action}
use jsonrpc_for_cpp.Converter.{int_from_json, int_converter, string_from_json, string_converter}
use jsonrpc_for_cpp.Json.{parsed}
use jsonrpc_for_cpp.Converter.Args.{Param, Tuple, extract_args, convert_args, pack_args}
use jsonrpc_for_cpp.Results.{OnlyCode, throw, ok, rpc, std_exception}
use jsonrpc_for_cpp.Prelude.{
  List, [], ◌∷◌, ◌≡◌, refl, String, ◌^◌, c_str, ℕ, ◌+◌, ◌≢◌, All, str_ltb,
}
use jsonrpc_for_cpp.Prelude.Int.{ℤ, pos, negsuc, to_string, to_int32, InRange}
use jsonrpc_for_cpp.Errors.ErrorCode
use jsonrpc_for_cpp.Tests.Sample.{
  sample_json, object, member, end, Tree, null, int64, uint64, array, cons, nil, parse_tree,
  print_tree, of_list,
}

abbrev pub int_param : Param
int_param = record { Arg = ℤ; converter = int_converter }

abbrev text_param : Param
text_param = record { Arg = String; converter = string_converter }

-- `add(int, int)`, which throws on a negative second argument.
abbrev pub add : Tuple (int_param ∷ int_param ∷ []) → Action ℕ ℤ
add (pos a, (pos b, _)) calls = (ok (pos (a + b)), calls + 1)
add (a, (b, _)) calls = (throw (std_exception "negative"), calls)

ints-OnlyCode : (v : Tree) → OnlyCode ErrorCode.invalid_params (int_converter.from_json v)
unfolding int_from_json error_of
ints-OnlyCode (int64 z) = tt
ints-OnlyCode null = refl
ints-OnlyCode _ = refl

extract_args-pack_args_example :
    extract_args
      (int_param ∷ text_param ∷ [])
      (array (of_list (pack_args (int_param ∷ text_param ∷ []) (pos 7, ("x", tt)))))
    ≡ ok (pos 7, ("x", tt))
unfolding int_from_json string_from_json to_int32 c_str
extract_args-pack_args_example =
    extract_args-pack_args (int_param ∷ text_param ∷ []) (pos 7, ("x", tt)) (refl, (refl, tt))

wrap_tests :
    (wrap
        (int_param ∷ int_param ∷ [])
        add
        int_converter.to_json
        (array (cons (int64 (pos 2)) (cons (int64 (pos 3)) nil)))
        0
      ≡ (ok (int64 (pos 5)), 1))
    × (wrap
          (int_param ∷ int_param ∷ [])
          add
          int_converter.to_json
          (array (cons (int64 (pos 2)) (cons (int64 (negsuc 0)) nil)))
          0
        ≡ (throw (rpc (error_of ErrorCode.internal_error "方法执行失败: negative")), 0))
unfolding wrap extract_args convert_args int_from_json to_int32
wrap_tests = (refl, refl)

int_from_json_wraps_example :
    (i : ℤ) × (int_from_json (int64 (pos (2 ^ 32))) ≡ ok i)
    × InRange (2 ^ 31) i
    × (i ≢ pos (2 ^ 32))
int_from_json_wraps_example = int_from_json_wraps (pos (2 ^ 32)) (omega arith) (omega arith)

reads_nine_as_signed : parse_tree (print_tree (uint64 9)) ≡ parsed (int64 (pos 9))
unfolding parse_tree print_tree to_string
reads_nine_as_signed = refl

abbrev ages : List (String × ℤ)
ages = ("ann", pos 31) ∷ ("bob", negsuc 0) ∷ []

ages-IsAscending : IsAscending ages
unfolding str_ltb
ages-IsAscending = ((refl, tt), (tt, tt))

ages_fit :
    All (λ (e : String × ℤ). int_converter.from_json (int_converter.to_json e.1) ≡ ok e.1) ages
unfolding int_from_json to_int32
ages_fit = (refl, (refl, tt))

-- Keys are read in any order.
reads_unordered :
    map_from_json int_converter
      (object (member "b" (int64 (pos 2)) (member "a" (int64 (pos 1)) end)))
    ≡ ok (("a", pos 1) ∷ ("b", pos 2) ∷ [])
unfolding map_from_json int_from_json to_int32 str_ltb
reads_unordered = refl
