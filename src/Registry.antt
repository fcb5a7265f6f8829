-- ===== src/Registry.antt =====
-- include/jsonrpc/detail/method_registry.hpp and impl/method_registry.ipp: the table of methods,
-- the size of the thread pool, and the call of one method. Batches are in `Registry.Batch`.
-- `std::map` is an association list with one entry for a name; the pool is its number of threads.
pub mod Invoke
pub mod Batch
use jsonrpc_for_cpp.Errors.ErrorCode
use jsonrpc_for_cpp.Errors.{error_of}
use jsonrpc_for_cpp.Types.Response.{result, Response, success, error, failure}
use jsonrpc_for_cpp.Results.{Result, ok, throw, rpc, std_exception, foreign}
use jsonrpc_for_cpp.Types.Request.{Request}
use jsonrpc_for_cpp.Converter.Args.{Param, Tuple}
use jsonrpc_for_cpp.Json.{JsonLib}
use Prim.Native.String.{◌++◌ as append}
use jsonrpc_for_cpp.Prelude.{
  List, [], ◌∷◌, none, some, ℕ, String, Option, if◌then◌else◌, max, str_eq, ◌%◌, ◌==◌, ◌^◌,
}
use jsonrpc_for_cpp.Types.Request
use jsonrpc_for_cpp.Types.Response
use jsonrpc_for_cpp.Wrapper.{MethodWrapper, Action, wrap}

module _ {A : Type 0} where
  unfoldable pub find_entry : String → List (String × A) → Option A
  find_entry k [] = none
  find_entry k ((j, a) ∷ m) = if str_eq j k then some a else find_entry k m

  unfoldable pub set_entry : String → A → List (String × A) → List (String × A)
  set_entry k a [] = (k, a) ∷ []
  set_entry k a ((j, b) ∷ m) = if str_eq j k then (k, a) ∷ m else (j, b) ∷ set_entry k a m

module _ ⦃J : JsonLib⦄ where
  open J use {Value}

  pub record Registry (W : Type 0) : Type 0 where
    pub methods : List (String × MethodWrapper W)
    pub batch_thread_count : ℕ
    pub batch_pool : Option ℕ

  -- `static_cast<unsigned>`
  abbrev pub to_unsigned : ℕ → ℕ
  to_unsigned n = n % 2 ^ 32

  -- The constructor, at the number that `std::thread::hardware_concurrency` gives.
  unfoldable pub new_registry : {W : Type 0} → ℕ → Registry W
  new_registry hardware_concurrency = record {
    methods = [];
    batch_thread_count = max 2 hardware_concurrency;
    batch_pool = some (to_unsigned (max 2 hardware_concurrency));
  }

  -- The `catch` clauses of `invoke`.
  unfoldable pub respond : Value → Result Value → Result Response
  respond id (ok v) = ok (success v id)
  respond id (throw (rpc e)) = ok (failure e id)
  respond id (throw (std_exception what)) =
      ok (failure (error_of ErrorCode.internal_error (append "内部错误: " what)) id)
  respond id (throw foreign) = throw foreign

  module _ {W : Type 0} where
    unfoldable pub set_batch_concurrency : ℕ → Registry W → Registry W
    set_batch_concurrency threads g =
        let count = if threads == 0 then 1 else threads in
        record g { batch_thread_count = count; batch_pool = some (to_unsigned count) }

    unfoldable pub get_batch_pool : Registry W → ℕ × Registry W
    get_batch_pool g = elim g.batch_pool [
      | none ↦ (
        to_unsigned g.batch_thread_count,
        record g { batch_pool = some (to_unsigned g.batch_thread_count) },
      )
      | some pool ↦ (pool, g)
    ]

    unfoldable pub register_method :
        {R : Type 0} (name : String) (ps : List Param)
        → (Tuple ps → Action W R)
        → (R → Value)
        → Registry W
        → Registry W
    unfolding set_entry
    register_method name ps func encode g = record g {
      methods = set_entry name (wrap ps func encode) g.methods;
    }

    unfoldable pub invoke : Registry W → Request → Action W Response
    unfolding find_entry respond
    invoke g request w = elim (find_entry request.method g.methods) [
      | none ↦ (
        respond request.id
            (throw (rpc (error_of ErrorCode.method_not_found (append "方法不存在: " request.method)))),
        w,
      )
      | some wrapper ↦ (let (r, w') = wrapper request.params w in (respond request.id r, w'))
    ]
