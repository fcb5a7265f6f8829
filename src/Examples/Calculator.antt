-- ===== src/Examples/Calculator.antt =====
-- examples/calculator/calculator_server.cpp: the functions of the calculator and its server. What
-- C++ leaves open is a parameter: the result of an `int` operation that overflows, the cast of an
-- `int` to `double`, and the division of doubles.
pub mod Serves
pub mod Answers
use jsonrpc_for_cpp.Asio.{Acceptors}
use jsonrpc_for_cpp.Examples.{Line, out, err}
use jsonrpc_for_cpp.Converter.{Floats, int_converter, double_converter}
use jsonrpc_for_cpp.Converter.Args.{Param, Tuple}
use jsonrpc_for_cpp.Errors.ErrorCode
use jsonrpc_for_cpp.Errors.{error_of}
use jsonrpc_for_cpp.Json.{JsonLib}
use jsonrpc_for_cpp.Prelude.{String, List, [], ◌∷◌, ℕ, if◌then◌else◌, ◌^◌, true}
use Prim.Native.String.{◌++◌ as append}
use jsonrpc_for_cpp.Prelude.Int.{ℤ, ◌+ℤ◌, ◌-ℤ◌, ◌*ℤ◌, is_zero, in_range}
use jsonrpc_for_cpp.Results.{Result, Exception, ok, throw, rpc, std_exception, foreign}
use jsonrpc_for_cpp.Server.{
  Server, new_open_server, set_batch_concurrency, set_logger, register_method, enter_run,
}
use jsonrpc_for_cpp.Wrapper.{Action}

-- What comes of the program: a server that waits in its event loop, an exit code, or an exception
-- that is not caught. The lines that it printed are given the last first.
pub data Outcome (S : Type 0) : Type 0 where
  serving : List Line → S → Outcome S
  exited : List Line → ℕ → Outcome S
  uncaught : Outcome S

module _ ⦃J : JsonLib⦄ where
  open J use {Double}

  pub record Arithmetic : Type 1 where
    pub floats : Floats
    pub overflow : ℤ → ℤ
    pub divide : Double → Double → Double

  abbrev pub int_param : Param
  int_param = record { Arg = ℤ; converter = int_converter }

  -- The parameters of each function, `(int, int)`.
  abbrev pub two_ints : List Param
  two_ints = int_param ∷ int_param ∷ []

  module _ (m : Arithmetic) where
    -- An `int` expression with this mathematical value.
    abbrev to_int : ℤ → ℤ
    to_int z = if in_range (2 ^ 31) z then z else m.overflow z

    module _ {W : Type 0} where
      unfoldable pub add : Tuple two_ints → Action W ℤ
      add (a, (b, _)) w = (ok (to_int (a +ℤ b)), w)

      unfoldable pub subtract : Tuple two_ints → Action W ℤ
      subtract (a, (b, _)) w = (ok (to_int (a -ℤ b)), w)

      unfoldable pub multiply : Tuple two_ints → Action W ℤ
      multiply (a, (b, _)) w = (ok (to_int (a *ℤ b)), w)

      unfoldable pub divide : Tuple two_ints → Action W Double
      divide (a, (b, _)) w =
          if is_zero b
          then (throw (rpc (error_of ErrorCode.invalid_params "除数不能为 0")), w)
          else (ok (m.divide (m.floats.of_int64 a) (m.floats.of_int64 b)), w)

      -- The four registrations.
      unfoldable pub register_functions : {E N : Type 0} → Server W E N → Server W E N
      register_functions s =
          let s1 = register_method "add" two_ints add int_converter.to_json s in
          let s2 = register_method "subtract" two_ints subtract int_converter.to_json s1 in
          let s3 = register_method "multiply" two_ints multiply int_converter.to_json s2 in
          register_method "divide" two_ints divide (double_converter m.floats).to_json s3

      module _ {N : Type 0} (a : Acceptors N) where
        -- `catch (const std::exception& e)`
        unfoldable pub on_exception : List Line → Exception → Outcome (Server W a.Endpoint N)
        on_exception lines (rpc e) = exited (err (append "服务器异常: " e.what) ∷ lines) 1
        on_exception lines (std_exception what) = exited (err (append "服务器异常: " what) ∷ lines) 1
        on_exception lines foreign = uncaught

        -- `main`, up to the event loop that `run` enters.
        unfoldable pub server_main : ℕ → N → Outcome (Server W a.Endpoint N)
        unfolding on_exception register_functions
        server_main hardware_concurrency n = elim (new_open_server a hardware_concurrency 8080 n) [
          | throw x ↦ on_exception [] x
          | ok made ↦
              (let (sized, s) = set_batch_concurrency 4 made in
                elim sized [
                  | throw x ↦ on_exception [] x
                  | ok _ ↦
                      (let lines =
                          out "Calculator server listening on http://127.0.0.1:8080" ∷ [] in
                        let (entered, t) = enter_run a (register_functions (set_logger true s)) in
                        elim entered [ throw x ↦ on_exception lines x | ok _ ↦ serving lines t ])
                ])
        ]
