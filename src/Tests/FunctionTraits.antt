-- ===== src/Tests/FunctionTraits.antt =====
-- The traits of a lambda with two parameters.
use jsonrpc_for_cpp.Prelude.{[], ◌∷◌, some, ◌≡◌, none, refl}
use jsonrpc_for_cpp.FunctionTraits.{Callable, functor, const_member, arg, function_traits}

data Cpp : Type 0 where
  int string const_string_ref closure : Cpp

abbrev decayed : Cpp → Cpp
decayed int = int
decayed string = string
decayed const_string_ref = string
decayed closure = closure

abbrev greet : Callable Cpp
greet =
    functor
      (const_member closure (record { result = string; arguments = int ∷ const_string_ref ∷ [] }))

traits_of_greet :
    (arg decayed 1 (function_traits decayed greet) ≡ some string)
    × (arg decayed 2 (function_traits decayed greet) ≡ none)
    × ((function_traits decayed greet).return_type ≡ string)
unfolding arg function_traits
traits_of_greet = (refl, refl, refl)
