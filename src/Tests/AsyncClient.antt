-- ===== src/Tests/AsyncClient.antt =====
-- The program of the asynchronous calls against the calculator.
use jsonrpc_for_cpp.Json.{IsStable}
use jsonrpc_for_cpp.Protocol.RoundTrip.{Sendable}
use jsonrpc_for_cpp.Protocol.{serialize_request, request_value, response_value}
use jsonrpc_for_cpp.Types.Response.{success}
use jsonrpc_for_cpp.Converter.Args.{pack_args}
use jsonrpc_for_cpp.Client.{new_client}
use jsonrpc_for_cpp.Types.Request.{Request, request_of}
use jsonrpc_for_cpp.Asio.{Report, done}
use native.Mathlib.Omega.{arith}
use jsonrpc_for_cpp.Client.Loop.{run_handlers, async_call}
use jsonrpc_for_cpp.Client.Loop.Fair.{IsFair}
use jsonrpc_for_cpp.ClientSession.{Post, Network, build_request}
use jsonrpc_for_cpp.Examples.{Line}
use jsonrpc_for_cpp.Examples.AsyncClient.{async_main}
use jsonrpc_for_cpp.Examples.AsyncClient.Answers.{IsServed, request, response, answer_lines}
use jsonrpc_for_cpp.Examples.AsyncClient.Ends.{three, printed, three-length}
use jsonrpc_for_cpp.Examples.AsyncClient.Prints.{sent, outcomes, async_main-prints}
use jsonrpc_for_cpp.Examples.Calculator.Answers.{Operation, adding, multiplying, subtracting}
use jsonrpc_for_cpp.Prelude.{List, [], ◌∷◌, ◌++◌, ◌≡◌, refl, ℕ, String, true, suc, zero, sym}
use jsonrpc_for_cpp.Prelude.Int.{ℤ, pos, ◌+ℤ◌, ◌*ℤ◌, ◌-ℤ◌}
use jsonrpc_for_cpp.Prelude.Int
use jsonrpc_for_cpp.Types.Request
use jsonrpc_for_cpp.Types.Response
use jsonrpc_for_cpp.Examples.AsyncClient.{async_calls}
use jsonrpc_for_cpp.Results.{ok}
use jsonrpc_for_cpp.Tests.Calculator.{
  answer, processed, finished, calculator, calculator-Offers, arithmetic,
}
use jsonrpc_for_cpp.Tests.ClientSession.{fixed}
use jsonrpc_for_cpp.Tests.EventLoop.{before, after}
use jsonrpc_for_cpp.Tests.Sample.{sample_json, print_tree, parse_tree}
use jsonrpc_for_cpp.Tests.ServerSession.{post, post-IsJsonPost}
use mathlib.Core.List.{Perm}

-- A network that brings what the calculator answers.
abbrev bringing : Operation → ℕ → ℕ → ℕ → Network (List Post)
bringing o a b id = fixed (answer 0 (request o (pos a) (pos b) (pos id))).body

abbrev adds : Network (List Post)
adds = bringing adding 1 2 1

abbrev multiplies : Network (List Post)
multiplies = bringing multiplying 3 4 2

abbrev subtracts : Network (List Post)
subtracts = bringing subtracting 20 5 3

fair : IsFair (before ++ after) (three "not an int64" adds multiplies subtracts [])
fair zero h = omega arith
fair (suc zero) h = omega arith
fair (suc (suc zero)) h = omega arith
fair (suc (suc (suc i))) h =
    absurd (omega (arith, three-length "not an int64" adds multiplies subtracts []))

module _ (o : Operation) (a b id : ℕ) where
  abbrev asked : Request
  asked = request o (pos a) (pos b) (pos id)

  served :
      (sent : String) (outcomes : List (Report String))
      → sent ≡ serialize_request asked
      → outcomes ≡ done (answer 0 asked).body ∷ []
      → Sendable asked
      → IsStable (request_value asked)
      → IsStable (response_value (response o (pos a) (pos b) (pos id)))
      → IsServed calculator o (pos a) (pos b) (pos id) sent outcomes
  served sent outcomes same brought sendable k l = record {
    fresh = true;
    req = post (serialize_request asked);
    res = answer 0 asked;
    found = 0;
    left = (finished 0 asked).world;
    posted = post-IsJsonPost (serialize_request asked);
    delivered = sym same;
    processed = processed 0 asked sendable k;
    brought = brought;
    request_readable = k;
    response_readable = l;
  }

async_main-prints_example :
    (first : List Line) × (second : List Line) × Perm (first ++ second) answer_lines
    × (async_main "not an int64" adds multiplies subtracts before after []
        ≡ ok (printed before after 3 first second, 0))
unfolding async_calls async_call build_request new_client pack_args run_handlers request_of
    Request.to_json Response.to_json success parse_tree print_tree Int.to_string ◌+ℤ◌ ◌*ℤ◌ ◌-ℤ◌
async_main-prints_example =
    async_main-prints "not an int64" adds multiplies subtracts [] before after arithmetic calculator
      fair calculator-Offers
      (served adding 1 2 1 _ _ refl refl
        (record { valid = record { params = refl; id = refl }; clean = refl }) refl refl)
      (served multiplying 3 4 2 _ _ refl refl
        (record { valid = record { params = refl; id = refl }; clean = refl }) refl refl)
      (served subtracting 20 5 3 _ _ refl refl
        (record { valid = record { params = refl; id = refl }; clean = refl }) refl refl)
