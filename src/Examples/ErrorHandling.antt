-- ===== src/Examples/ErrorHandling.antt =====
-- examples/error_handling/main.cpp: two calls that the calculator refuses.
pub mod Prints
use Prim.Native.String.{◌++◌ as append}
use jsonrpc_for_cpp.Client.{Client, call, new_client}
use jsonrpc_for_cpp.ClientSession.{Network}
use jsonrpc_for_cpp.Converter.{int_converter}
use jsonrpc_for_cpp.Examples.{Line, out, err}
use jsonrpc_for_cpp.Examples.Calculator.{two_ints}
use jsonrpc_for_cpp.Json.{JsonLib}
use jsonrpc_for_cpp.Prelude.{String, List, [], ◌∷◌, ◌++◌, ℕ}
use jsonrpc_for_cpp.Prelude.Int.{ℤ, pos, to_string}
use jsonrpc_for_cpp.Results.{Result, ok, throw, rpc, ◌>>=◌}

module _ ⦃J : JsonLib⦄ where
  -- The first `try` block on the outcome of its call: the lines that it prints, or the exception
  -- that it lets through.
  unfoldable pub divide_lines : Result ℤ → Result (List Line)
  divide_lines (ok z) = ok (out (append "结果: " (to_string z)) ∷ [])
  divide_lines (throw (rpc e)) = ok (
      err (
        append "捕获到 JSON-RPC 错误: "
          (append e.message (append " (code=" (append (to_string e.code) ")"))))
      ∷ [])
  divide_lines (throw x) = throw x

  -- The second.
  unfoldable pub unknown_lines : Result ℤ → Result (List Line)
  unknown_lines (ok z) = ok []
  unknown_lines (throw (rpc e)) = ok (err (append "未知方法错误: " e.message) ∷ [])
  unknown_lines (throw x) = throw x

  module _ {N : Type 0} (n : Network N) where
    abbrev pub made_client : N → Client N
    made_client net = new_client "127.0.0.1" 8080 net

    abbrev pub divide_call : Client N → Result ℤ × Client N
    divide_call c = call n int_converter "divide" two_ints (pos 10, (pos 0, tt)) c

    abbrev pub unknown_call : Client N → Result ℤ × Client N
    unknown_call c = call n int_converter "method_not_exists" two_ints (pos 1, (pos 2, tt)) c

    -- `main`: the lines and the exit code, or the exception that is not caught.
    unfoldable pub error_handling_main : N → Result (List Line × ℕ)
    unfolding divide_lines unknown_lines
    error_handling_main net =
        let (first, c) = divide_call (made_client net) in
        let (second, d) = unknown_call c in
        do one ← divide_lines first; two ← unknown_lines second; ok (one ++ two, 0)
