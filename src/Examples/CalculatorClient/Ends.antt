-- ===== src/Examples/CalculatorClient/Ends.antt =====
-- How the program of the calculator's client ends, whatever its calls give.
use Prim.Native.String.{◌++◌ as append}
use jsonrpc_for_cpp.Client.{Client, new_client, notify}
use jsonrpc_for_cpp.Client.Contract.{
  client_api, client_api-Promises, int_call-cases, double_call-cases,
}
use jsonrpc_for_cpp.ClientSession.{Network}
use jsonrpc_for_cpp.Converter.{Floats}
use jsonrpc_for_cpp.Errors.{Error}
use jsonrpc_for_cpp.Examples.{Line, out, err, exits}
use jsonrpc_for_cpp.Examples.Calculator.{two_ints}
use jsonrpc_for_cpp.Examples.CalculatorClient.{
  on_exception, sum_line, difference_line, ratio_line, sum_call, difference_call, ratio_call,
  client_main, text_param,
}
use jsonrpc_for_cpp.Json.{JsonLib}
use jsonrpc_for_cpp.Prelude.{String, [], ◌∷◌, ◌≡◌, inl, inr, arith}
use jsonrpc_for_cpp.Prelude.Int.{ℤ, pos}
use jsonrpc_for_cpp.Results.{ok, throw, rpc}

module _ ⦃J : JsonLib⦄ where
  open J use {Double}

  module _ (F : Floats) (show_double : Double → String) {N : Type 0} (n : Network N) (net : N) where
    -- The clients after each call.
    abbrev c1 : Client N
    c1 = (sum_call (client_api n) (new_client "127.0.0.1" 8080 net)).1

    abbrev c2 : Client N
    c2 = (difference_call (client_api n) c1).1

    abbrev c3 : Client N
    c3 = (ratio_call (client_api n) F c2).1

    abbrev failed : Error → Line
    failed e = err (append "RPC 错误: " e.message)

    -- The first call that fails ends the program; if none does, the notification is sent.
    pub data Ends : Type 0 where
      no_sum :
          (e : Error)
          → (sum_call (client_api n) (new_client "127.0.0.1" 8080 net)).0 ≡ throw (rpc e)
          → client_main (client_api n) F show_double net ≡ (exits (failed e ∷ []) 1, c1)
          → Ends
      no_difference :
          (s : ℤ) (e : Error)
          → (sum_call (client_api n) (new_client "127.0.0.1" 8080 net)).0 ≡ ok s
          → (difference_call (client_api n) c1).0 ≡ throw (rpc e)
          → client_main (client_api n) F show_double net
            ≡ (exits (sum_line s ∷ failed e ∷ []) 1, c2)
          → Ends
      no_ratio :
          (s d : ℤ) (e : Error)
          → (sum_call (client_api n) (new_client "127.0.0.1" 8080 net)).0 ≡ ok s
          → (difference_call (client_api n) c1).0 ≡ ok d
          → (ratio_call (client_api n) F c2).0 ≡ throw (rpc e)
          → client_main (client_api n) F show_double net
            ≡ (exits (sum_line s ∷ difference_line d ∷ failed e ∷ []) 1, c3)
          → Ends
      all_three :
          (s d : ℤ) (q : Double)
          → (sum_call (client_api n) (new_client "127.0.0.1" 8080 net)).0 ≡ ok s
          → (difference_call (client_api n) c1).0 ≡ ok d
          → (ratio_call (client_api n) F c2).0 ≡ ok q
          → client_main (client_api n) F show_double net ≡ (
            exits
                (sum_line s
                  ∷ difference_line d
                  ∷ ratio_line show_double q
                  ∷ out "通知已发送（无需等待响应）"
                  ∷ [])
                0,
            notify n "log" (text_param ∷ []) ("客户端发送的通知", tt) c3,
          )
          → Ends

    -- Whatever the network does, the client's program lets no exception out. The first of its three
    -- calls that fails ends it with exit code 1, after the lines of the calls before it and the
    -- message of the error; if none fails it prints the three results, sends the notification and
    -- ends with exit code 0.
    pub client_main-Ends : Ends
    unfolding client_main on_exception
    client_main-Ends =
        elim (int_call-cases (client_api n) (client_api-Promises n) "add" two_ints
          (pos 10, (pos 20, tt)) (new_client "127.0.0.1" 8080 net)) [
            | inr (e, h) ↦ no_sum e h (ground arith)
            | inl (s, h) ↦
                elim (int_call-cases (client_api n) (client_api-Promises n) "subtract" two_ints
                  (pos 55, (pos 13, tt)) c1) [
                    | inr (e, k) ↦ no_difference s e h k (ground arith)
                    | inl (d, k) ↦
                        elim (double_call-cases (client_api n) (client_api-Promises n) "divide"
                          two_ints (pos 42, (pos 5, tt)) c2 F) [
                            | inr (e, l) ↦ no_ratio s d e h k l (ground arith)
                            | inl (q, l) ↦ all_three s d q h k l (ground arith)
                          ]
                  ]
          ]
