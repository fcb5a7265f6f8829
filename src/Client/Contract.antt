-- ===== src/Client/Contract.antt =====
-- include/jsonrpc/client.hpp: the class `Client` as its users see it, what its comments promise,
-- and that the implementation keeps it. The event loop is in Client/EventLoop.
use jsonrpc_for_cpp.Client.{Client}
use jsonrpc_for_cpp.Client
use jsonrpc_for_cpp.Client.Failures.{
  call-OnlyErrors, call_batch-OnlyErrors, int_converter-OnlyErrors, double_converter-OnlyErrors,
}
use jsonrpc_for_cpp.ClientSession.{Network, Session}
use jsonrpc_for_cpp.Converter.{Converter, Floats, int_converter, double_converter}
use jsonrpc_for_cpp.Converter.Args.{Param, Tuple}
use jsonrpc_for_cpp.Errors.{Error}
use jsonrpc_for_cpp.Json.{JsonLib}
use jsonrpc_for_cpp.Prelude.{String, List, ℕ, Bool, ◌≡◌, ◌⊎◌}
use jsonrpc_for_cpp.Prelude.Int.{ℤ}
use jsonrpc_for_cpp.Results.{Result, ok, throw, rpc, OnlyErrors, OnlyErrors-cases}
use jsonrpc_for_cpp.Types.Request.{Request}
use jsonrpc_for_cpp.Types.Response.{Response}

module _ ⦃J : JsonLib⦄ where
  open J use {Value, Double}

  -- The operations, over a network in some state and the client object. `async_call` gives the
  -- session whose handlers the event loop runs.
  pub record ClientApi (N C : Type 0) : Type 1 where
    pub construct : String → ℕ → N → C
    pub set_timeout : ℤ → C → C
    pub set_logger : Bool → C → C
    pub call : {A : Type 0} → Converter A → String → (ps : List Param) → Tuple ps → C → Result A × C
    pub async_call : String → (ps : List Param) → Tuple ps → C → Session N × C
    pub call_batch : List Request → C → Result (List Response) × C
    pub notify : String → (ps : List Param) → Tuple ps → C → C

  -- "@throws Error": nothing else leaves a call, if nothing else leaves the conversion of its
  -- result.
  pub record Promises {N C : Type 0} (api : ClientApi N C) : Type 1 where
    pub call_throws :
        {A : Type 0} (converter : Converter A) (method : String) (ps : List Param) (args : Tuple ps)
        (c : C)
        → ((v : Value) → OnlyErrors (converter.from_json v))
        → OnlyErrors (api.call converter method ps args c).0
    pub call_batch_throws :
        (requests : List Request) (c : C) → OnlyErrors (api.call_batch requests c).0

  module _ {N : Type 0} (n : Network N) where
    abbrev pub client_api : ClientApi N (Client N)
    client_api = record {
      construct = Client.new_client;
      set_timeout = Client.set_timeout;
      set_logger = Client.set_logger;
      call = Client.call n;
      async_call = Client.async_call;
      call_batch = Client.call_batch n;
      notify = Client.notify n;
    }

    -- The client throws nothing but an `Error` from a typed call, whatever the network does, if the
    -- conversion of its result throws nothing else; nor does it from a batch call.
    pub client_api-Promises : Promises client_api
    client_api-Promises = record {
      call_throws = call-OnlyErrors n;
      call_batch_throws = call_batch-OnlyErrors n;
    }

  -- What a user of the promises may rely on for two types of results.
  module _ {N C : Type 0} (api : ClientApi N C) (promises : Promises api) (method : String)
      (ps : List Param) (args : Tuple ps) (c : C) where
    pub int_call-cases :
        ((z : ℤ) × ((api.call int_converter method ps args c).0 ≡ ok z))
        ⊎ ((e : Error) × ((api.call int_converter method ps args c).0 ≡ throw (rpc e)))
    int_call-cases =
        OnlyErrors-cases (api.call int_converter method ps args c).0
          (promises.call_throws int_converter method ps args c int_converter-OnlyErrors)

    pub double_call-cases :
        (F : Floats)
        → ((d : Double) × ((api.call (double_converter F) method ps args c).0 ≡ ok d))
          ⊎ ((e : Error) × ((api.call (double_converter F) method ps args c).0 ≡ throw (rpc e)))
    double_call-cases F =
        OnlyErrors-cases (api.call (double_converter F) method ps args c).0 (
          promises.call_throws (double_converter F) method ps args c
            (double_converter-OnlyErrors F))
