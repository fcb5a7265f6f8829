-- ===== src/Examples/Retry.antt =====
-- examples/timeout_retry/main.cpp: a call that is tried again after a second.
pub mod Attempts
use Prim.Native.String.{◌++◌ as append}
use jsonrpc_for_cpp.Client.Contract.{ClientApi}
use jsonrpc_for_cpp.Converter.{int_converter}
use jsonrpc_for_cpp.Examples.{Line, out, err}
use jsonrpc_for_cpp.Json.{JsonLib}
use jsonrpc_for_cpp.Prelude.{List, [], ◌∷◌, ◌++◌, ℕ, zero, suc, ◌+◌, ◌==◌, if◌then◌else◌, to_string}
use jsonrpc_for_cpp.Prelude.Int.{ℤ, pos}
use jsonrpc_for_cpp.Results.{Result, ok, throw, rpc, ◌>>=◌, Exception}

-- What the program does beside its calls.
pub data Event : Type 0 where
  prints : Line → Event
  sleeps : ℕ → Event

abbrev pub max_attempts : ℕ
max_attempts = 3

module _ ⦃J : JsonLib⦄ where
  -- The `try` block and its handler, on the outcome of the call: whether the loop goes on, and what
  -- the program did; or the exception that is let through.
  pub data Turn : Type 0 where
    leaves : List Event → Turn
    goes_on : List Event → Turn
    escapes : Exception → Turn

  unfoldable pub turn : ℕ → Result ℤ → Turn
  turn attempt (ok z) = leaves (prints (out "调用成功") ∷ [])
  turn attempt (throw (rpc e)) = goes_on (
      prints (err (append "调用失败: " e.message))
      ∷ (if attempt == max_attempts then prints (err "达到最大重试次数") else sleeps 1)
      ∷ [])
  turn attempt (throw x) = escapes x

  abbrev pub tries : ℕ → Event
  tries attempt = prints (out (append "第 " (append (to_string attempt) " 次尝试调用 ping()")))

  module _ {N C : Type 0} (api : ClientApi N C) where
    abbrev pub ping : C → Result ℤ × C
    ping c = api.call int_converter "ping" [] tt c

    -- The `for` loop with so many rounds left.
    unfoldable pub rounds : ℕ → ℕ → C → Result (List Event) × C
    unfolding turn
    rounds zero attempt c = (ok [], c)
    rounds (suc left) attempt c =
        let (outcome, d) = ping c in
        let (rest, last) = rounds left (attempt + 1) d in
        elim (turn attempt outcome) [
          | leaves events ↦ (ok (tries attempt ∷ events), d)
          | goes_on events ↦ ((do later ← rest; ok (tries attempt ∷ events ++ later)), last)
          | escapes x ↦ (throw x, d)
        ]

    -- `main`; its exit code is 0.
    unfoldable pub retry_main : N → Result (List Event) × C
    unfolding rounds
    retry_main net =
        rounds max_attempts 1 (api.set_timeout (pos 500) (api.construct "127.0.0.1" 9000 net))
