-- ===== src/Examples/BatchRequest.antt =====
-- examples/batch_request/main.cpp: three calls in one batch. No exception leaves its loop over the
-- responses: `result` and `error` are each asked of the responses that have one.
pub mod Prints
use Prim.Native.String.{◌++◌ as append}
use jsonrpc_for_cpp.Client.{Client, call_batch, new_client}
use jsonrpc_for_cpp.ClientSession.{Network}
use jsonrpc_for_cpp.Examples.{Line, out, err}
use jsonrpc_for_cpp.Json.{JsonLib, array, int64}
use jsonrpc_for_cpp.Prelude.{List, [], ◌∷◌, ℕ, String, if◌then◌else◌}
use jsonrpc_for_cpp.Prelude.Int.{pos}
use jsonrpc_for_cpp.Results.{Result, ok, throw, rpc, ◌>>=◌, collect}
use jsonrpc_for_cpp.Types.Request.{Request, request_of}
use jsonrpc_for_cpp.Types.Response.{Response, error, result}

module _ ⦃J : JsonLib⦄ where
  open J use {Value, value, serialize}

  -- A request of two numbers, with a number as its identifier.
  unfoldable pub numbered : String → ℕ → ℕ → ℕ → Request
  numbered method a b id =
      request_of method (value (array (value (int64 (pos a)) ∷ value (int64 (pos b)) ∷ [])))
        (value (int64 (pos id)))

  abbrev pub requests : List Request
  requests = numbered "add" 1 2 1 ∷ numbered "multiply" 3 5 2 ∷ numbered "subtract" 20 4 3 ∷ []

  -- The body of the loop over the responses; a JSON value is streamed as it is serialized.
  unfoldable pub response_line : Response → Result Line
  response_line resp =
      if resp.is_error
      then (do
        e ← error resp
        ok (err (append "请求 " (append (serialize resp.id) (append " 失败: " e.message)))))
      else (do
        v ← result resp
        ok (out (append "请求 " (append (serialize resp.id) (append " 的结果: " (serialize v))))))

  -- The handler of the `try` block.
  unfoldable pub on_error : Result (List Line × ℕ) → Result (List Line × ℕ)
  on_error (throw (rpc e)) = ok (err (append "批量调用失败: " e.message) ∷ [], 1)
  on_error r = r

  abbrev pub batch_client : {N : Type 0} → N → Client N
  batch_client net = new_client "127.0.0.1" 8080 net

  module _ {N : Type 0} (n : Network N) where
    -- `main`: the lines and the exit code, or the exception that is not caught.
    unfoldable pub batch_main : N → Result (List Line × ℕ)
    unfolding on_error response_line
    batch_main net = on_error (do
      responses ← (call_batch n requests (batch_client net)).0
      lines ← collect response_line responses
      ok (lines, 0))
