-- ===== src/Registry/Invoke.antt =====
-- The call of one method: which method answers, and with what.
use jsonrpc_for_cpp.Errors.ErrorCode
use jsonrpc_for_cpp.Errors.{error_of}
use text.Mathlib.TextEquality.{eq_iff}
use native.Mathlib.Omega.{arith}
use Prim.Native.String.{◌++◌ as append}
use jsonrpc_for_cpp.Wrapper.{Action, wrap}
use jsonrpc_for_cpp.Results.{Result, ok, throw, rpc, std_exception, foreign}
use jsonrpc_for_cpp.Converter.Args.{Param, Tuple}
use jsonrpc_for_cpp.Registry.{find_entry, invoke, respond, set_entry, Registry, register_method}
use jsonrpc_for_cpp.Json.{JsonLib}
use jsonrpc_for_cpp.Prelude.{
  List, [], ◌∷◌, some, String, ◌≡◌, if◌then◌else◌, Option-cases, str_eq, inl, inr, refl,
}
use jsonrpc_for_cpp.Types.Request.{Request}
use jsonrpc_for_cpp.Types.Response.{Response, success, failure}

module _ {A : Type 0} where
  pub find_entry-set_entry :
      (k j : String) (a : A) (m : List (String × A))
      → find_entry j (set_entry k a m) ≡ (if str_eq k j then some a else find_entry j m)
  unfolding find_entry set_entry
  find_entry-set_entry k j a [] = refl
  find_entry-set_entry k j a ((i, b) ∷ m) =
      ground (arith, eq_iff k j, eq_iff i k, eq_iff i j, find_entry-set_entry k j a m)

module _ ⦃J : JsonLib⦄ where
  open J use {Value}

  respond-id :
      (id : Value) (r : Result Value) (answer : Response)
      → respond id r ≡ ok answer
      → answer.id ≡ id
  unfolding respond success failure
  respond-id id (ok v) answer h = ground arith
  respond-id id (throw (rpc e)) answer h = ground arith
  respond-id id (throw (std_exception what)) answer h = ground arith
  respond-id id (throw foreign) answer h = ground arith

  module _ {W : Type 0} where
    -- After a registration calls of that name run the new function, and calls of other names are
    -- answered as before.
    pub invoke-register_method :
        {R : Type 0} (name : String) (ps : List Param) (func : Tuple ps → Action W R)
        (encode : R → Value) (g : Registry W) (request : Request) (w : W)
        → invoke (register_method name ps func encode g) request w ≡ (
            if str_eq name request.method
            then (let (r, w') = wrap ps func encode request.params w in (respond request.id r, w'))
            else invoke g request w)
    unfolding invoke register_method
    invoke-register_method name ps func encode g request w =
        ground (arith, find_entry-set_entry name request.method (wrap ps func encode) g.methods)

    -- A response carries the identifier of the request that it answers.
    pub invoke-id :
        (g : Registry W) (request : Request) (w w' : W) (answer : Response)
        → invoke g request w ≡ (ok answer, w')
        → answer.id ≡ request.id
    unfolding invoke
    invoke-id g request w w' answer h = elim (Option-cases (find_entry request.method g.methods)) [
      | inl e ↦
          respond-id request.id
            (throw (rpc (error_of ErrorCode.method_not_found (append "方法不存在: " request.method))))
            answer (ground arith)
      | inr (m, e) ↦ respond-id request.id (m request.params w).0 answer (ground arith)
    ]
