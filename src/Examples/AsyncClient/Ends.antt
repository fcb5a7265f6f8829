-- ===== src/Examples/AsyncClient/Ends.antt =====
-- How the program of the asynchronous calls ends, whatever the network brings and in whatever order
-- the handlers run.
use jsonrpc_for_cpp.Client.Loop.Throws.{
  AllLined, Throws, lined, Returns, run_for-append_throw, run_for-lined, run_for-append_ok,
}
use jsonrpc_for_cpp.Client.Loop.Orders.{run_handlers-callbacks}
use jsonrpc_for_cpp.Prelude.Int.{pos}
use jsonrpc_for_cpp.Examples.Calculator.{two_ints}
use Prim.Native.String.{◌++◌ as append}
use jsonrpc_for_cpp.Client.{new_client}
use jsonrpc_for_cpp.Client.Loop.{
  Loop, Run, rest, step, calls, open_loop, async_call, run_handlers, run_for,
}
use jsonrpc_for_cpp.Client.Loop.Accounts.{callbacks_of}
use jsonrpc_for_cpp.Client.Loop.Counts.{IsCalm, called-length}
use jsonrpc_for_cpp.Client.Loop.Fair.{IsFair}
use jsonrpc_for_cpp.ClientSession.{Network}
use jsonrpc_for_cpp.Examples.{Line, out}
use jsonrpc_for_cpp.Examples.AsyncClient.{async_line, async_callback, async_calls, async_main}
use jsonrpc_for_cpp.Json.{JsonLib}
use jsonrpc_for_cpp.Prelude.{
  List, [], ◌∷◌, ◌++◌, ℕ, ◌%◌, ◌^◌, ◌+◌, String, length, to_string, All, ◌≡◌, refl, ◌⊎◌, inl, inr,
  drop-length, ap, ◌∙◌, subst, sym, length-append,
}
use jsonrpc_for_cpp.Results.{
  Result, ok, throw, rpc, Exception, std_exception, Result-cases, Yields, Yields-length,
  collect_complete, Yields-append,
}
use jsonrpc_for_cpp.Types.Response.{Response, error, result}
use native.Mathlib.Omega.{arith}

-- What the program prints, with these lines of its callback in the two runs of the loop.
abbrev pub printed : List ℕ → List ℕ → ℕ → List Line → List Line → List Line
printed before after count first second =
    out "等待异步调用完成..." ∷ first
    ++ out (append "run_for() 处理了 " (append (to_string (length before % 2 ^ 64)) " 个事件")) ∷ second
    ++ out (append "run_until_idle() 又处理了 " (append (to_string (length after % 2 ^ 64)) " 个事件"))
      ∷ out (append "总计完成 " (append (to_string count) " 个调用"))
      ∷ []

module _ ⦃J : JsonLib⦄ where
  throws_not : {r : Result (Unit {0})} {x : Exception} → r ≡ throw x → r ≡ ok tt → ⊥
  throws_not h k = ground arith

  module _ (wrong_kind : String) where
    async_line-throw :
        (r : Response) (x : Exception)
        → async_line wrong_kind r ≡ throw x
        → x ≡ std_exception wrong_kind
    unfolding async_line error result
    async_line-throw r x h = ground arith

    async_callback-IsCalm : IsCalm (async_callback wrong_kind)
    unfolding async_callback
    async_callback-IsCalm r e h = ground (arith, async_line-throw r (rpc e))

    module _ {N : Type 0} (adds multiplies subtracts : Network N) (net : N) where
      abbrev pub three : Loop N
      three = async_calls wrong_kind adds multiplies subtracts net

      pub three-Run : Run (open_loop (new_client "127.0.0.1" 8080 net)) [] three
      unfolding async_calls
      three-Run =
          step
            (step
              (step rest (
                calls adds "add" (async_callback wrong_kind) two_ints (pos 1, (pos 2, tt)) refl
                  refl))
              (calls multiplies "multiply" (async_callback wrong_kind) two_ints (pos 3, (pos 4, tt))
                refl refl))
            (calls subtracts "subtract" (async_callback wrong_kind) two_ints (pos 20, (pos 5, tt))
              refl refl)

      pub three-length : length three.exchanges ≡ 3
      unfolding async_calls async_call
      three-length = refl

      pub three-IsCalm : All IsCalm (callbacks_of three.exchanges)
      unfolding async_calls async_call
      three-IsCalm = (async_callback-IsCalm, (async_callback-IsCalm, (async_callback-IsCalm, tt)))

      three-AllLined : AllLined (async_line wrong_kind) three
      unfolding async_calls async_call async_callback
      three-AllLined = (refl, (refl, (refl, tt)))

      lined-IsCalm : IsCalm (lined (async_line wrong_kind))
      lined-IsCalm r e h = ground (arith, async_line-throw r (rpc e))

      module _ (before after : List ℕ) where
        -- The responses that the callback gets in the program, and those that it gets if the user
        -- runs the loop again after an exception.
        abbrev pub called : List Response
        called = (run_for (before ++ after) three).1.client.called

        abbrev pub all_called : List Response
        all_called = (run_handlers (before ++ after) three).1.client.called

        -- How the program ends: it prints a line for each response, or it throws at a response
        -- after those that it printed.
        pub data Ending : Type 0 where
          prints :
              (first second : List Line)
              → called ≡ all_called
              → Yields (async_line wrong_kind) called (first ++ second)
              → async_main wrong_kind adds multiplies subtracts before after net
                ≡ ok (printed before after (length first + length second) first second, 0)
              → Ending
          throws :
              (front : List Response) (lines : List Line) (r : Response) (later : List Response)
              → called ≡ front ++ r ∷ []
              → all_called ≡ called ++ later
              → Yields (async_line wrong_kind) front lines
              → async_line wrong_kind r ≡ throw (std_exception wrong_kind)
              → async_main wrong_kind adds multiplies subtracts before after net
                ≡ throw (std_exception wrong_kind)
              → Ending

        main_throws :
            (v : Throws (async_line wrong_kind) (before ++ after) three)
            → async_main wrong_kind adds multiplies subtracts before after net ≡ throw v.exception
            → Ending
        unfolding new_client async_calls async_call
        main_throws v ends =
            let same = async_line-throw v.last v.exception v.thrown in
            throws v.responses v.lines v.last v.later v.called v.goes_on v.taken
              (v.thrown ∙ ap throw same) (ends ∙ ap throw same)

        main_thrown :
            (x : Exception)
            → (run_for (before ++ after) three).0 ≡ throw x
            → async_main wrong_kind adds multiplies subtracts before after net ≡ throw x
        unfolding async_main
        main_thrown x h = elim (Result-cases (run_for before three).0) [
          | inr (y, g) ↦
              let same = ap (λ z. z.0) (run_for-append_throw before after three y g) in
              rw g (ground (arith, g, same, h))
          | inl (u, g) ↦
              let same = ap (λ z. z.0) (run_for-append_ok before after three g) in
              rw (g, sym same, h) refl
        ]

        module _ (v : Returns (async_line wrong_kind) before three)
            (u : Returns (async_line wrong_kind) after (run_handlers before three).1) where
          called_twice : called ≡ v.responses ++ u.responses
          unfolding new_client async_calls async_call
          called_twice =
              ap (λ z. z.1.client.called)
                (run_for-append_ok before after three (ap (λ z. z.0) v.ran))
              ∙ ap (λ z. (run_for after z.1).1.client.called) v.ran
              ∙ ap (λ z. z.1.client.called) u.ran
              ∙ u.called
              ∙ ap (λ z. z ++ u.responses) v.called

          main_prints :
              async_main wrong_kind adds multiplies subtracts before after net
              ≡ ok (printed before after (length v.lines + length u.lines) v.lines u.lines, 0)
          unfolding async_main new_client async_calls async_call
          main_prints =
              rw
                (
                  v.ran,
                  u.ran,
                  u.called,
                  drop-length (run_handlers before three).1.client.called u.responses,
                  v.called,
                  collect_complete (async_line wrong_kind) v.responses v.lines v.taken,
                  collect_complete (async_line wrong_kind) u.responses u.lines u.taken,
                )
                refl

        pub ending : Ending
        ending =
            elim (run_for-lined (async_line wrong_kind) (before ++ after) three lined-IsCalm
              three-AllLined) [
                | inr v ↦ main_throws v (main_thrown v.exception v.ended)
                | inl w ↦
                    elim (run_for-lined (async_line wrong_kind) before three lined-IsCalm
                      three-AllLined) [
                        | inr v ↦
                            let same =
                              run_for-append_throw before after three v.exception v.ended in
                            absurd (throws_not (v.ended) (ap (λ z. z.0) (sym same ∙ w.ran)))
                        | inl v ↦
                            let onward =
                              run_for-append_ok before after three (ap (λ z. z.0) v.ran)
                              ∙ ap (λ z. run_for after z.1) v.ran in
                            elim (run_for-lined (async_line wrong_kind) after
                              (run_handlers before three).1 lined-IsCalm
                              (rw (run_handlers-callbacks before three) three-AllLined)) [
                                | inr u ↦
                                    absurd (throws_not u.ended (ap (λ z. z.0) (sym onward ∙ w.ran)))
                                | inl u ↦
                                    prints v.lines u.lines (ap (λ z. z.1.client.called) w.ran)
                                      (subst
                                        (λ z. Yields (async_line wrong_kind) z (v.lines ++ u.lines))
                                        (sym (called_twice v u))
                                        (Yields-append (async_line wrong_kind) v.responses
                                          u.responses v.lines u.lines v.taken u.taken))
                                      (main_prints v u)
                              ]
                      ]
              ]

        pub three_calls : IsFair (before ++ after) three → length all_called ≡ 3
        unfolding new_client async_calls async_call
        three_calls fair =
            called-length (new_client "127.0.0.1" 8080 net) [] three (before ++ after) three-Run
              three-IsCalm fair
            ∙ three-length

        -- If the handlers of `run_for` and those of `run_until_idle` are together an order in which
        -- each of the three sessions has four turns, the program ends in one of two ways. Either the
        -- callback is called three times and takes each response, and the program prints its line
        -- for each, before or after the line of `run_for`, counts three calls and returns 0. Or the
        -- callback throws at the last response that it gets, after it took those before, and the
        -- program ends at once in the exception that `as_int64` throws there.
        pub async_main-Ends :
            IsFair (before ++ after) three
            → ((first : List Line) × (second : List Line) × (length called ≡ 3)
                × Yields (async_line wrong_kind) called (first ++ second)
                × (async_main wrong_kind adds multiplies subtracts before after net
                    ≡ ok (printed before after 3 first second, 0)))
              ⊎ ((front : List Response) × (lines : List Line) × (r : Response) × (called
                    ≡ front ++ r ∷ [])
                  × Yields (async_line wrong_kind) front lines
                  × (async_line wrong_kind r ≡ throw (std_exception wrong_kind))
                  × (async_main wrong_kind adds multiplies subtracts before after net
                      ≡ throw (std_exception wrong_kind)))
        unfolding new_client
        async_main-Ends fair = elim ending [
          | throws front lines r later last more taken thrown ends ↦
              inr (front, lines, r, last, taken, thrown, ends)
          | prints first second same taken ends ↦
              let count : length called ≡ 3 = ap length same ∙ three_calls fair in
              let total : length first + length second ≡ 3 = omega (
                arith,
                Yields-length (async_line wrong_kind) called (first ++ second) taken,
                length-append first second,
                count,
              ) in
              inl (
                first,
                second,
                count,
                taken,
                ends ∙ ap (λ z. ok (printed before after z first second, 0)) total,
              )
        ]
