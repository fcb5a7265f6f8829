-- ===== src/Examples/Calculator/Serves.antt =====
-- What the program of the calculator's server sets up.
use jsonrpc_for_cpp.Converter.{int_converter, double_converter}
use jsonrpc_for_cpp.Wrapper.{wrap}
use jsonrpc_for_cpp.Prelude.{◌≡◌, some, refl}
use jsonrpc_for_cpp.Registry.{Registry, find_entry, get_batch_pool, new_registry}
use jsonrpc_for_cpp.Examples.Calculator.{
  Arithmetic, register_functions, two_ints, add, subtract, multiply, divide,
}
use jsonrpc_for_cpp.Json.{JsonLib}
use jsonrpc_for_cpp.Server.{Server, register_method}
use jsonrpc_for_cpp.Registry
use jsonrpc_for_cpp.Registry.Invoke.{find_entry-set_entry}

module _ ⦃J : JsonLib⦄ where
  module _ (m : Arithmetic) {W : Type 0} where
    -- The server answers the four names with the four functions.
    pub record Offers (g : Registry W) : Type 0 where
      pub adds : find_entry "add" g.methods ≡ some (wrap two_ints (add m) int_converter.to_json)
      pub subtracts :
          find_entry "subtract" g.methods ≡ some (wrap two_ints (subtract m) int_converter.to_json)
      pub multiplies :
          find_entry "multiply" g.methods ≡ some (wrap two_ints (multiply m) int_converter.to_json)
      pub divides :
          find_entry "divide" g.methods
          ≡ some (wrap two_ints (divide m) (double_converter m.floats).to_json)

    pub register_functions-Offers :
        {E N : Type 0} (s : Server W E N) → Offers (register_functions m s).registry
    unfolding register_functions register_method Registry.register_method
    register_functions-Offers s = record {
      adds = simp find_entry-set_entry refl;
      subtracts = simp find_entry-set_entry refl;
      multiplies = simp find_entry-set_entry refl;
      divides = simp find_entry-set_entry refl;
    }
