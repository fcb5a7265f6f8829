-- ===== src/Examples/CalculatorClient.antt =====
-- examples/calculator/calculator_client.cpp: three calls of the calculator and a notification.
-- The conversions of doubles, and how `std::cout` writes one, are parameters.
pub mod Ends
use Prim.Native.String.{◌++◌ as append}
use jsonrpc_for_cpp.Client.Contract.{ClientApi}
use jsonrpc_for_cpp.Converter.{Floats, int_converter, double_converter, string_converter}
use jsonrpc_for_cpp.Converter.Args.{Param}
use jsonrpc_for_cpp.Examples.{Line, out, err, Exit, exits, uncaught}
use jsonrpc_for_cpp.Examples.Calculator.{two_ints}
use jsonrpc_for_cpp.Json.{JsonLib}
use jsonrpc_for_cpp.Prelude.{String, List, [], ◌∷◌, ◌++◌}
use jsonrpc_for_cpp.Prelude.Int.{ℤ, pos, to_string}
use jsonrpc_for_cpp.Results.{Result, Exception, ok, throw, rpc, std_exception, foreign}

module _ ⦃J : JsonLib⦄ where
  open J use {Double}

  -- The two handlers of the `try` block, after some lines.
  unfoldable pub on_exception : List Line → Exception → Exit
  on_exception lines (rpc e) = exits (lines ++ err (append "RPC 错误: " e.message) ∷ []) 1
  on_exception lines (std_exception what) = exits (lines ++ err (append "客户端异常: " what) ∷ []) 1
  on_exception lines foreign = uncaught

  abbrev pub sum_line : ℤ → Line
  sum_line sum = out (append "10 + 20 = " (to_string sum))

  abbrev pub difference_line : ℤ → Line
  difference_line diff = out (append "55 - 13 = " (to_string diff))

  -- The notification's argument is a text.
  abbrev pub text_param : Param
  text_param = record { Arg = String; converter = string_converter }

  abbrev pub ratio_line : (Double → String) → Double → Line
  ratio_line show_double ratio = out (append "42 / 5 = " (show_double ratio))

  module _ {N C : Type 0} (api : ClientApi N C) where
    abbrev pub sum_call : C → Result ℤ × C
    sum_call c = api.call int_converter "add" two_ints (pos 10, (pos 20, tt)) c

    abbrev pub difference_call : C → Result ℤ × C
    difference_call c = api.call int_converter "subtract" two_ints (pos 55, (pos 13, tt)) c

    abbrev pub ratio_call : Floats → C → Result Double × C
    ratio_call F c = api.call (double_converter F) "divide" two_ints (pos 42, (pos 5, tt)) c

    -- `main`, with the client that it leaves.
    unfoldable pub client_main : Floats → (Double → String) → N → Exit × C
    unfolding on_exception
    client_main F show_double net =
        let (sum, c1) = sum_call (api.construct "127.0.0.1" 8080 net) in
        elim sum [
          | throw x ↦ (on_exception [] x, c1)
          | ok s ↦
              (let (diff, c2) = difference_call c1 in
                elim diff [
                  | throw x ↦ (on_exception (sum_line s ∷ []) x, c2)
                  | ok d ↦
                      (let (ratio, c3) = ratio_call F c2 in
                        elim ratio [
                          | throw x ↦ (on_exception (sum_line s ∷ difference_line d ∷ []) x, c3)
                          | ok q ↦ (
                            exits
                                (sum_line s
                                  ∷ difference_line d
                                  ∷ ratio_line show_double q
                                  ∷ out "通知已发送（无需等待响应）"
                                  ∷ [])
                                0,
                            api.notify "log" (text_param ∷ []) ("客户端发送的通知", tt) c3,
                          )
                        ])
                ])
        ]
