-- ===== src/Tests/Registry.antt =====
-- A registry with one method, and a batch whose tasks run out of order.
use jsonrpc_for_cpp.Registry.Batch.Stopped.{stopped_pool_waits, then_counts, rest}
use jsonrpc_for_cpp.Tests.Protocol.{sum_response}
use jsonrpc_for_cpp.Results.{ok}
use jsonrpc_for_cpp.Errors.{error_of}
use jsonrpc_for_cpp.Types.Response.{success}
use jsonrpc_for_cpp.Converter.{int_from_json, int_converter}
use jsonrpc_for_cpp.Converter.Args.{extract_args, convert_args}
use jsonrpc_for_cpp.Wrapper.{wrap}
use jsonrpc_for_cpp.Tests.Converter.{int_param, add}
use jsonrpc_for_cpp.Registry.Batch.Progress.{Run-completes_iff}
use jsonrpc_for_cpp.Tests.Types.{add_request, log_request}
use jsonrpc_for_cpp.Types.Request.{Request}
use jsonrpc_for_cpp.Registry.{Registry, invoke, register_method, new_registry}
use jsonrpc_for_cpp.Registry.Batch.Order.{AnswersAll, calls, BatchReturns-AnswersAll}
use jsonrpc_for_cpp.Prelude.{List, [], ◌∷◌, ◌≡◌, refl, ◌↔◌, length, ◌≢◌, ℕ, ◌+◌}
use jsonrpc_for_cpp.Prelude.Int.{to_int32}
use jsonrpc_for_cpp.Registry.Batch.{
  here, next, runs, counts, waited, BatchReturns, BatchState, batch_responses, start_batch,
  run_task, count_task, Run, task_response,
}
use jsonrpc_for_cpp.Tests.Sample.{sample_json}

abbrev pub adder : Registry ℕ
adder =
    register_method "add" (int_param ∷ int_param ∷ []) add int_converter.to_json (new_registry 8)

calls_add : invoke adder add_request 0 ≡ (ok sum_response, 1)
unfolding invoke register_method new_registry wrap extract_args convert_args int_from_json to_int32
    success error_of
calls_add = refl

abbrev pub batch : List Request
batch = add_request ∷ log_request ∷ []

batch_is_filled : batch ≢ []
batch_is_filled e = cc

abbrev pub at_start : BatchState ℕ
at_start = start_batch batch 0

abbrev pub log_stored : BatchState ℕ
log_stored = run_task adder 1 log_request at_start

abbrev pub log_counted : BatchState ℕ
log_counted = count_task 1 log_stored

abbrev pub add_stored : BatchState ℕ
add_stored = run_task adder 0 add_request log_counted

abbrev pub add_counted : BatchState ℕ
add_counted = count_task 0 add_stored

three_steps : Run adder batch at_start 3 add_stored
unfolding start_batch run_task count_task
three_steps =
    next (next (next here (runs 1 log_request refl refl refl)) (counts 1 refl refl))
      (runs 0 add_request refl refl refl)

one_step : Run adder batch at_start 1 log_stored
unfolding start_batch run_task
one_step = next here (runs 1 log_request refl refl refl)

-- The pool is stopped while the first task is queued and the second runs.
stopped_pool_waits_example : log_counted.completions ≡ 0
stopped_pool_waits_example =
    stopped_pool_waits adder batch 0 0 batch_is_filled one_step
      (unfold start_batch run_task in refl)
      (then_counts 1 rest (unfold start_batch run_task in refl))

four_steps : Run adder batch at_start 4 add_counted
unfolding start_batch run_task count_task
four_steps = next three_steps (counts 0 refl refl)

pub batch_returns : BatchReturns adder batch 0 (batch_responses add_counted) add_counted.world
batch_returns = waited batch_is_filled four_steps kept refl refl
  where
    kept : add_counted.completions ≡ 1
    kept = unfold start_batch run_task count_task in refl

batch_answer : batch_responses add_counted ≡ sum_response ∷ []
unfolding batch_responses start_batch run_task count_task task_response invoke register_method
    new_registry wrap extract_args convert_args int_from_json to_int32 success error_of
batch_answer = refl

BatchReturns-AnswersAll_example : AnswersAll adder (calls batch) (batch_responses add_counted)
BatchReturns-AnswersAll_example =
    BatchReturns-AnswersAll adder batch 0 add_counted.world (batch_responses add_counted)
      batch_returns

Run-completes_iff_example : (add_stored.completions ≡ 1) ↔ (3 ≡ length batch + length batch)
Run-completes_iff_example = Run-completes_iff adder batch 0 batch_is_filled three_steps
