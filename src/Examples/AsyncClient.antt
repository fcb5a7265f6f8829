-- ===== src/Examples/AsyncClient.antt =====
-- examples/async_client/main.cpp: three asynchronous calls in one event loop. What their callback
-- throws is no `Error`, so that it leaves the loop, and `main`.
pub mod Ends
pub mod Answers
pub mod Prints
use Prim.Native.String.{◌++◌ as append}
use jsonrpc_for_cpp.Client.{new_client}
use jsonrpc_for_cpp.Client.Loop.{Loop, open_loop, async_call, run_for}
use jsonrpc_for_cpp.ClientSession.{Network}
use jsonrpc_for_cpp.Examples.{Line, out, err}
use jsonrpc_for_cpp.Examples.Calculator.{two_ints}
use jsonrpc_for_cpp.Json.{JsonLib, as_int64}
use jsonrpc_for_cpp.Prelude.{
  List, [], ◌∷◌, ◌++◌, ℕ, ◌%◌, ◌^◌, ◌+◌, String, if◌then◌else◌, drop, length, to_string,
}
use jsonrpc_for_cpp.Prelude.Int.{pos}
use jsonrpc_for_cpp.Prelude.Int
use jsonrpc_for_cpp.Results.{Result, ok, std_exception, ◌>>=◌, ◌>>◌, require_some, collect}
use jsonrpc_for_cpp.Types.Response.{Response, error, result}

module _ ⦃J : JsonLib⦄ where
  module _ (wrong_kind : String) where
    -- What the callback prints, before it counts the call; `as_int64` throws with this text.
    unfoldable pub async_line : Response → Result Line
    async_line resp =
        if resp.is_error then (do e ← error resp; ok (err (append "异步错误: " e.message))) else (do
          v ← result resp
          z ← require_some (as_int64 v) (std_exception wrong_kind)
          ok (out (append "异步结果: " (Int.to_string z))))

    unfoldable pub async_callback : Response → Result (Unit {0})
    unfolding async_line
    async_callback resp = async_line resp >>= λ line. ok tt

    module _ {N : Type 0} (adds multiplies subtracts : Network N) where
      -- The three calls, each with the network of its session.
      unfoldable pub async_calls : N → Loop N
      unfolding async_callback
      async_calls net =
          async_call subtracts "subtract" async_callback two_ints (pos 20, (pos 5, tt))
            (async_call multiplies "multiply" async_callback two_ints (pos 3, (pos 4, tt))
              (async_call adds "add" async_callback two_ints (pos 1, (pos 2, tt))
                (open_loop (new_client "127.0.0.1" 8080 net))))

      -- `main`, where `run_for` and then the polls of `run_until_idle` find these handlers: the
      -- lines and the exit code, or the exception that is not caught.
      unfoldable pub async_main : List ℕ → List ℕ → N → Result (List Line × ℕ)
      unfolding async_calls
      async_main before after net =
          let (ran, l) = run_for before (async_calls net) in
          let (polled, k) = run_for after l in
          do
            ran
            polled
            first ← collect async_line l.client.called
            second ← collect async_line (drop (length l.client.called) k.client.called)
            ok (
              out "等待异步调用完成..." ∷ first
                  ++ out
                      (append "run_for() 处理了 " (append (to_string (length before % 2 ^ 64)) " 个事件"))
                    ∷ second
                  ++ out (
                      append "run_until_idle() 又处理了 "
                        (append (to_string (length after % 2 ^ 64)) " 个事件"))
                    ∷ out
                        (append "总计完成 " (append (to_string (length first + length second)) " 个调用"))
                    ∷ [],
              0,
            )
