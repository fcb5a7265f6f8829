-- ===== src/Tests/Calculator.antt =====
-- The calculator's server, and calls of it through its sessions.
use Prim.Native.String.{String}
use native.Mathlib.Omega.{arith}
use jsonrpc_for_cpp.Prelude.{ℕ, List, [], ◌∷◌, ◌≡◌, refl, true, false, none, All, map}
use jsonrpc_for_cpp.Prelude.Int.{ℤ, pos, negsuc}
use jsonrpc_for_cpp.Registry
use jsonrpc_for_cpp.Asio.{done, broken, Report}
use jsonrpc_for_cpp.Converter.{Floats}
use jsonrpc_for_cpp.ClientSession.{
  Network, exchange, write_sync, receive_sync, write_request, build_request, Session,
}
use jsonrpc_for_cpp.Json.{IsStable}
use jsonrpc_for_cpp.Protocol.{request_value, serialize_request, serialize_batch_request}
use jsonrpc_for_cpp.Protocol.RoundTrip.{Sendable}
use jsonrpc_for_cpp.Registry.{Registry, find_entry, set_entry, new_registry}
use jsonrpc_for_cpp.Server.{register_method}
use jsonrpc_for_cpp.Registry.Batch.{
  here, next, runs, counts, waited, BatchReturns, BatchState, batch_responses, count_task, run_task,
  Run, start_batch,
}
use jsonrpc_for_cpp.ServerSession.{HttpResponse, Processes, served, reply}
use jsonrpc_for_cpp.ServerSession.Receives.{receive-single, receive-batch}
use jsonrpc_for_cpp.Types.Request.{Request}
use jsonrpc_for_cpp.Examples.Calculator.{Arithmetic, register_functions}
use jsonrpc_for_cpp.Examples.Calculator.Serves.{Offers, register_functions-Offers}
use jsonrpc_for_cpp.Tests.Sample.{sample_json, array, of_list}
use jsonrpc_for_cpp.Tests.Server.{made}
use jsonrpc_for_cpp.Tests.ServerSession.{post, post-IsJsonPost}

-- Doubles are whole numbers here.
abbrev pub whole : ℤ → ℕ
whole (pos n) = n
whole (negsuc n) = 0

abbrev pub floats : Floats
floats = record { Float = ℕ; of_int64 = whole; of_uint64 = λ n. n; narrow = λ n. n; widen = λ n. n }

abbrev pub arithmetic : Arithmetic
arithmetic = record { floats = floats; overflow = λ z. pos 0; divide = λ a b. a }

abbrev pub calculator : Registry ℕ
calculator = (register_functions arithmetic made).registry

pub calculator-Offers : Offers arithmetic calculator
calculator-Offers = register_functions-Offers arithmetic made

-- One request, run by the calculator at some state of its functions.
module _ (w : ℕ) (r : Request) where
  abbrev ran : BatchState ℕ
  ran = run_task calculator 0 r (start_batch (r ∷ []) w)

  abbrev pub finished : BatchState ℕ
  finished = count_task 0 ran

  abbrev pub answer : HttpResponse
  answer = reply (post (serialize_request r)) false (batch_responses finished)

  returned : BatchReturns calculator (r ∷ []) w (batch_responses finished) finished.world
  returned = waited (λ e. cc) steps kept refl refl
    where
      steps : Run calculator (r ∷ []) (start_batch (r ∷ []) w) 2 finished
      steps =
          unfold start_batch run_task count_task in
          next (next here (runs 0 r refl refl refl)) (counts 0 refl refl)

      kept : finished.completions ≡ 1
      kept = unfold start_batch run_task count_task in refl

  pub processed :
      Sendable r
      → IsStable (request_value r)
      → Processes true calculator (post (serialize_request r)) w answer finished.world
  processed s k =
      served (r ∷ []) false (batch_responses finished)
        (receive-single true (post (serialize_request r)) r (post-IsJsonPost (serialize_request r))
          s k refl)
        returned refl

abbrev deliver : List String → Report String × List String
deliver [] = (broken (record { message = "End of file"; what = "End of file" }), [])
deliver (text ∷ texts) = (done text, texts)

-- A network that delivers these texts one after the other.
abbrev pub scripted : Network (List String)
scripted = record {
  Endpoints = Unit {0};
  expires_after = λ timeout texts. texts;
  resolve = λ host port texts. (done tt, texts);
  connect = λ endpoints texts. (done tt, texts);
  write = λ post texts. (done tt, texts);
  read = deliver;
  shutdown = λ texts. texts;
}

pub scripted_delivers :
    (body text : String) (texts : List String) (s : Session (List String))
    → s.net ≡ text ∷ texts
    → ((exchange scripted body s).0 ≡ done text) × ((exchange scripted body s).1.net ≡ texts)
unfolding exchange write_sync receive_sync write_request build_request
scripted_delivers body text texts s h = (ground arith, ground arith)

pub calculator_has_no : find_entry "method_not_exists" calculator.methods ≡ none
unfolding register_functions register_method Registry.register_method find_entry set_entry
    new_registry
calculator_has_no = refl

-- A batch of three requests, whose tasks the calculator runs last first.
module _ (p q r : Request) where
  abbrev three : List Request
  three = p ∷ q ∷ r ∷ []

  abbrev third : BatchState ℕ
  third = count_task 2 (run_task calculator 2 r (start_batch three 0))

  abbrev pair : BatchState ℕ
  pair = count_task 1 (run_task calculator 1 q third)

  abbrev pub all : BatchState ℕ
  all = count_task 0 (run_task calculator 0 p pair)

  abbrev pub batch_answer : HttpResponse
  batch_answer = reply (post (serialize_batch_request three)) true (batch_responses all)

  all_returned : BatchReturns calculator three 0 (batch_responses all) all.world
  all_returned = waited (λ e. cc) steps kept refl refl
    where
      steps : Run calculator three (start_batch three 0) 6 all
      steps =
          unfold start_batch run_task count_task in
          next
            (next
              (next
                (next (next (next here (runs 2 r refl refl refl)) (counts 2 refl refl))
                  (runs 1 q refl refl refl))
                (counts 1 refl refl))
              (runs 0 p refl refl refl))
            (counts 0 refl refl)

      kept : all.completions ≡ 1
      kept = unfold start_batch run_task count_task in refl

  pub batch_processed :
      All Sendable three
      → IsStable (array (of_list (map request_value three)))
      → Processes true calculator (post (serialize_batch_request three)) 0 batch_answer all.world
  batch_processed s k =
      served three true (batch_responses all)
        (receive-batch true (post (serialize_batch_request three)) p (q ∷ r ∷ [])
          (post-IsJsonPost (serialize_batch_request three)) s k refl)
        all_returned refl
