-- ===== src/Wrapper.antt =====
-- include/jsonrpc/detail/method_wrapper.hpp: a C++ function behind a JSON interface. `W` is the
-- state that user functions share and change; a call takes it and gives it back.
use jsonrpc_for_cpp.Errors.ErrorCode
use jsonrpc_for_cpp.Errors.{error_of}
use jsonrpc_for_cpp.Results.{Result, ok, throw, rpc, std_exception, foreign}
use jsonrpc_for_cpp.Json.{JsonLib}
use Prim.Native.String.{◌++◌ as append}
use jsonrpc_for_cpp.Prelude.{List, ◌≡◌, refl}
use jsonrpc_for_cpp.Converter.Args.{Param, Tuple, extract_args}

module _ ⦃J : JsonLib⦄ where
  open J use {Value}

  abbrev pub Action : Type 0 → Type 0 → Type 0
  Action W A = W → Result A × W

  -- `MethodWrapperBase::invoke`
  abbrev pub MethodWrapper : Type 0 → Type 0
  MethodWrapper W = Value → Action W Value

  abbrev pub map_ok {ℓ κ} : {A : Type ℓ} {B : Type κ} → (A → B) → Result A → Result B
  map_ok f (ok a) = ok (f a)
  map_ok f (throw e) = throw e

  -- The two `catch` clauses of a wrapper.
  abbrev pub translate {ℓ} : {A : Type ℓ} → Result A → Result A
  translate (ok a) = ok a
  translate (throw (rpc e)) = throw (rpc e)
  translate (throw (std_exception what)) =
      throw (rpc (error_of ErrorCode.internal_error (append "方法执行失败: " what)))
  translate (throw foreign) = throw foreign

  module _ {W R : Type 0} (ps : List Param) (func : Tuple ps → Action W R)
      (encode : R → Value) where
    -- `call_with_tuple`, and the result as JSON; for `void` the encoder is `void_to_json`.
    unfoldable pub invoke_and_convert : Tuple ps → Action W Value
    invoke_and_convert args w = let (r, w') = func args w in (map_ok encode r, w')

    unfoldable pub wrap : MethodWrapper W
    unfolding invoke_and_convert
    wrap params w = elim (extract_args ps params) [
      | ok args ↦ (let (r, w') = invoke_and_convert args w in (translate r, w'))
      | throw e ↦ (translate (throw e), w)
    ]

    -- `MethodWrapperImplBase::invoke`, an earlier wrapper, which converts the result in place.
    unfoldable pub wrap_base : MethodWrapper W
    wrap_base params w = elim (extract_args ps params) [
      | ok args ↦ (let (r, w') = func args w in (translate (map_ok encode r), w'))
      | throw e ↦ (translate (throw e), w)
    ]

    -- The two wrappers answer alike.
    pub wrap_base-eq : (params : Value) (w : W) → wrap_base params w ≡ wrap params w
    unfolding wrap_base wrap
    wrap_base-eq params w = refl
