-- ===== src/Tests/EventLoop.antt =====
-- The event loop of a client over networks of which each always answers with the same text, and one
-- that finds no server.
use jsonrpc_for_cpp.Client.Loop.Orders.{run_handlers-Run}
use native.Mathlib.Omega.{arith}
use jsonrpc_for_cpp.Examples.AsyncClient.Ends.{
  three, three-Run, called, printed, async_main-Ends, three-length,
}
use jsonrpc_for_cpp.Types.Response.{Response}
use jsonrpc_for_cpp.Client.Loop.Fair.{IsFair, Run-answered}
use jsonrpc_for_cpp.Client.Loop.Accounts.{Accounts, Run-Accounts}
use jsonrpc_for_cpp.Client.Loop.Events.{outcomes_by}
use Prim.Native.Nat.{ℕ}
use jsonrpc_for_cpp.Asio.{broken, Report}
use jsonrpc_for_cpp.Client.{new_client, Client}
use jsonrpc_for_cpp.Client.Loop.{Loop, Run, open_loop, async_call, run_handlers, run_for}
use jsonrpc_for_cpp.ClientSession.{Post, Network}
use jsonrpc_for_cpp.Examples.{Line, out, err}
use jsonrpc_for_cpp.Examples.AsyncClient.{async_line, async_main}
use jsonrpc_for_cpp.Prelude.{List, [], ◌∷◌, ◌++◌, ◌≡◌, refl, String, length, ◌⊎◌, ◌<◌, suc, zero}
use jsonrpc_for_cpp.Prelude.Int.{pos}
use jsonrpc_for_cpp.Results.{ok, Yields, throw, std_exception}
use jsonrpc_for_cpp.Results
use jsonrpc_for_cpp.Protocol
use jsonrpc_for_cpp.Errors
use jsonrpc_for_cpp.Prelude.Int
use jsonrpc_for_cpp.Types.Request
use jsonrpc_for_cpp.Types.Response
use jsonrpc_for_cpp.Tests.ClientSession.{fixed}
use jsonrpc_for_cpp.Tests.Sample.{sample_json, print_tree, parse_tree, number_tree}

abbrev answering : ℕ → ℕ → Network (List Post)
answering v id = fixed (print_tree (number_tree (pos v) id))

abbrev unreachable : Network (List Post)
unreachable = record (fixed "") {
  Endpoints = Unit {0};
  resolve = λ host port posts.
      (broken (record { message = "Host not found"; what = "resolve: Host not found" }), posts);
}

-- The sum and the product wait for their responses when the difference fails.
abbrev pub before : List ℕ
before = 0 ∷ 1 ∷ 1 ∷ 0 ∷ 0 ∷ 1 ∷ 2 ∷ 1 ∷ []

abbrev pub after : List ℕ
after = 0 ∷ 0 ∷ 1 ∷ 2 ∷ 2 ∷ 2 ∷ []

async_main_runs :
    async_main "not an int64" (answering 3 1) (answering 12 2) unreachable before after []
    ≡ ok (
      out "等待异步调用完成..."
          ∷ err "异步错误: 网络错误: Host not found"
          ∷ out "异步结果: 12"
          ∷ out "run_for() 处理了 8 个事件"
          ∷ out "异步结果: 3"
          ∷ out "run_until_idle() 又处理了 6 个事件"
          ∷ out "总计完成 3 个调用"
          ∷ [],
      0,
    )
unfolding async_main run_for Results.collect async_call Protocol.parse_response Protocol.parse_text
    parse_tree Int.to_string print_tree Response.from_json Request.has_version Response.read_outcome
    Response.result new_client Response.error Errors.error_of
async_main_runs = refl

abbrev calling : Loop (List Post)
calling = three "not an int64" (answering 3 1) (answering 12 2) unreachable []

abbrev client : Client (List Post)
client = new_client "127.0.0.1" 8080 []

calling-Run : Run (open_loop client) [] calling
calling-Run = three-Run "not an int64" (answering 3 1) (answering 12 2) unreachable []

fair : IsFair (before ++ after) calling
fair zero h = omega arith
fair (suc zero) h = omega arith
fair (suc (suc zero)) h = omega arith
fair (suc (suc (suc i))) h =
    absurd
      (omega (arith, three-length "not an int64" (answering 3 1) (answering 12 2) unreachable []))

abbrev called_back : List Response
called_back = called "not an int64" (answering 3 1) (answering 12 2) unreachable [] before after

async_main-Ends_example :
    ((first : List Line) × (second : List Line) × (length called_back ≡ 3)
      × Yields (async_line "not an int64") called_back (first ++ second)
      × (async_main "not an int64" (answering 3 1) (answering 12 2) unreachable before after []
          ≡ ok (printed before after 3 first second, 0)))
    ⊎ ((front : List Response) × (lines : List Line) × (r : Response) × (called_back
          ≡ front ++ r ∷ [])
        × Yields (async_line "not an int64") front lines
        × (async_line "not an int64" r ≡ throw (std_exception "not an int64"))
        × (async_main "not an int64" (answering 3 1) (answering 12 2) unreachable before after []
            ≡ throw (std_exception "not an int64")))
async_main-Ends_example =
    async_main-Ends "not an int64" (answering 3 1) (answering 12 2) unreachable [] before after fair

Run-Accounts_example :
    Accounts client (run_handlers before calling).0 (run_handlers before calling).1
Run-Accounts_example =
    Run-Accounts client (run_handlers before calling).0 (run_handlers before calling).1
      (run_handlers-Run (open_loop client) [] calling before calling-Run)

third : 2 < length calling.exchanges
third = omega (arith, three-length "not an int64" (answering 3 1) (answering 12 2) unreachable [])

Run-answered_example :
    let (es, k) = run_handlers (before ++ after) calling in
    Accounts client es k × (outcome : Report String) × (outcomes_by 2 es ≡ outcome ∷ [])
Run-answered_example = Run-answered client [] calling (before ++ after) 2 calling-Run fair third
