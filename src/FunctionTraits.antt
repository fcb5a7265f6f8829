-- ===== src/FunctionTraits.antt =====
-- include/jsonrpc/detail/function_traits.hpp: what is read off the type of a callable. The types of
-- C++ are a parameter, and so is `std::decay` on them; a pack of types is a list.
use jsonrpc_for_cpp.Prelude.{List, ℕ, Option, none, map, length, get_elem?, ltb, if◌then◌else◌}

-- `R(Args...)`
pub record Signature (CppType : Type 0) : Type 0 where
  pub result : CppType
  pub arguments : List CppType

-- A pointer to a member function of a class.
pub data Member (CppType : Type 0) : Type 0 where
  const_member : CppType → Signature CppType → Member CppType
  plain_member : CppType → Signature CppType → Member CppType

-- The types that `function_traits` is specialised for; a lambda or function object has its call
-- operator.
pub data Callable (CppType : Type 0) : Type 0 where
  function_pointer : Signature CppType → Callable CppType
  std_function : Signature CppType → Callable CppType
  member_pointer : Member CppType → Callable CppType
  functor : Member CppType → Callable CppType

pub record Traits (CppType : Type 0) : Type 0 where
  pub return_type : CppType
  pub args_tuple : List CppType
  pub arity : ℕ

module _ {CppType : Type 0} (decay : CppType → CppType) where
  unfoldable pub member_traits : Member CppType → Traits CppType
  member_traits (const_member c s) = record {
    return_type = s.result;
    args_tuple = map decay s.arguments;
    arity = length s.arguments;
  }
  member_traits (plain_member c s) = record {
    return_type = s.result;
    args_tuple = map decay s.arguments;
    arity = length s.arguments;
  }

  unfoldable pub function_traits : Callable CppType → Traits CppType
  unfolding member_traits
  function_traits (function_pointer s) = record {
    return_type = s.result;
    args_tuple = map decay s.arguments;
    arity = length s.arguments;
  }
  function_traits (std_function s) = record {
    return_type = s.result;
    args_tuple = map decay s.arguments;
    arity = length s.arguments;
  }
  function_traits (member_pointer member) = member_traits member
  function_traits (functor operator) = member_traits operator

  -- `arg<N>::type`; `none` is a failed `static_assert`.
  unfoldable pub arg : ℕ → Traits CppType → Option CppType
  arg n t = if ltb n t.arity then get_elem? t.args_tuple n else none
