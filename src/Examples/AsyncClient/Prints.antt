-- ===== src/Examples/AsyncClient/Prints.antt =====
-- What the program of the asynchronous calls prints against the calculator.
use jsonrpc_for_cpp.Converter.Args.{pack_args}
use jsonrpc_for_cpp.Asio.{Report, done}
use jsonrpc_for_cpp.Client.{new_client}
use jsonrpc_for_cpp.Client.Loop.{Exchange, open_loop, async_call, run_handlers}
use jsonrpc_for_cpp.Client.Loop.Accounts.{Run-Accounts, callbacks_of}
use jsonrpc_for_cpp.Client.Loop.Events.{outcomes_by}
use jsonrpc_for_cpp.Client.Loop.Fair.{IsFair}
use jsonrpc_for_cpp.Client.Loop.Orders.{run_handlers-Run, run_handlers-callbacks}
use jsonrpc_for_cpp.Client.Loop.Outcomes.{Calls-response}
use jsonrpc_for_cpp.ClientSession.{Network, build_request}
use jsonrpc_for_cpp.Examples.{Line}
use jsonrpc_for_cpp.Examples.AsyncClient.{async_line, async_calls, async_main}
use jsonrpc_for_cpp.Examples.AsyncClient.Answers.{
  IsServed, IsServed-response, request, response, expected, expected_lines, expected-Distinct,
  answer_lines, answer_lines-Distinct, Yields-Has,
}
use jsonrpc_for_cpp.Examples.AsyncClient.Ends.{
  three, all_called, printed, prints, throws, ending, three_calls, three-Run, three-IsCalm,
}
use jsonrpc_for_cpp.Examples.Calculator.{Arithmetic}
use jsonrpc_for_cpp.Examples.Calculator.Answers.{
  Operation, adding, multiplying, subtracting, meaning,
}
use jsonrpc_for_cpp.Examples.Calculator.Serves.{Offers}
use jsonrpc_for_cpp.Json.{JsonLib}
use jsonrpc_for_cpp.Prelude.{
  ◌+◌, List, [], ◌∷◌, ◌++◌, ℕ, String, Option, none, some, get_elem?, All, Has, Distinct-Perm,
  Distinct-All, ◌≡◌, refl, ◌∙◌, length, sym, subst, ◌^◌, length-append, ap,
}
use jsonrpc_for_cpp.Prelude.Int.{pos, ℤ, ◌+ℤ◌, InRange, ◌*ℤ◌, ◌-ℤ◌}
use jsonrpc_for_cpp.Protocol.{serialize_request, parse_response}
use jsonrpc_for_cpp.Registry.{Registry}
use jsonrpc_for_cpp.Results.{ok, Yields, Yields-length}
use jsonrpc_for_cpp.Types.Response.{Response}
use mathlib.Core.List.{Perm}
use native.Mathlib.Omega.{arith}

module _ ⦃J : JsonLib⦄ where
  -- The body that a session sends.
  abbrev pub sent_by : {N : Type 0} → Option (Exchange N) → String
  sent_by none = ""
  sent_by (some e) = elim e.session.req [ none ↦ "" | some post ↦ post.body ]

  module _ (wrong_kind : String) {N : Type 0} (adds multiplies subtracts : Network N) (net : N)
      (before after : List ℕ) where
    abbrev pub sent : ℕ → String
    sent i = sent_by (get_elem? (three wrong_kind adds multiplies subtracts net).exchanges i)

    abbrev pub outcomes : ℕ → List (Report String)
    outcomes i =
        outcomes_by i
          (run_handlers (before ++ after) (three wrong_kind adds multiplies subtracts net)).0

    sent-requests :
        (sent 0 ≡ serialize_request (request adding (pos 1) (pos 2) (pos 1)))
        × (sent 1 ≡ serialize_request (request multiplying (pos 3) (pos 4) (pos 2)))
        × (sent 2 ≡ serialize_request (request subtracting (pos 20) (pos 5) (pos 3)))
    unfolding async_calls async_call build_request new_client pack_args
    sent-requests = (refl, refl, refl)

    called-Has :
        (i : ℕ) (text : String) (r : Response)
        → parse_response text ≡ ok r
        → outcomes i ≡ done text ∷ []
        → Has (all_called wrong_kind adds multiplies subtracts net before after) r
    unfolding new_client
    called-Has i text r p h =
        let l = three wrong_kind adds multiplies subtracts net in
        let c = new_client "127.0.0.1" 8080 net in
        let (fs, k) = run_handlers (before ++ after) l in
        let a = Run-Accounts c fs k (
          run_handlers-Run (open_loop c) [] l (before ++ after)
            (three-Run wrong_kind adds multiplies subtracts net)) in
        let (front, back, made) =
          Calls-response (callbacks_of k.exchanges)
            (rw (run_handlers-callbacks (before ++ after) l)
              (three-IsCalm wrong_kind adds multiplies subtracts net))
            i text r fs a.responses p h a.answers in
        (front, back, a.called ∙ made)

    served-Has :
        (m : Arithmetic) {W : Type 0} (g : Registry W)
        → Offers m g
        → (i : ℕ) (o : Operation) (a b id : ℤ) → InRange (2 ^ 31) a
        → InRange (2 ^ 31) b
        → InRange (2 ^ 31) (meaning o a b)
        → sent i ≡ serialize_request (request o a b id)
        → IsServed g o a b id (sent i) (outcomes i)
        → Has (all_called wrong_kind adds multiplies subtracts net before after) (response o a b id)
    served-Has m g offers i o a b id h k l same s =
        called-Has i s.res.body (response o a b id)
          (IsServed-response m g offers o a b id (sent i) (outcomes i) h k l same s) s.brought

    abbrev Taken : Response → Type 0
    Taken r = (line : Line) × (async_line wrong_kind r ≡ ok line)

    abbrev AllThere : Type 0
    AllThere = All (Has (all_called wrong_kind adds multiplies subtracts net before after)) expected

    abbrev ThreeCalls : Type 0
    ThreeCalls = length (all_called wrong_kind adds multiplies subtracts net before after) ≡ 3

    All-middle :
        {A : Type 0} (P : A → Type 0) (xs zs : List A) (y : A) → All P (xs ++ y ∷ [] ++ zs) → P y
    All-middle P [] zs y (p, _) = p
    All-middle P (x ∷ xs) zs y (_, h) = All-middle P xs zs y h

    called-Taken :
        AllThere
        → ThreeCalls
        → All Taken (all_called wrong_kind adds multiplies subtracts net before after)
    called-Taken all count =
        let (sum, (product, (difference, _))) = expected_lines wrong_kind in
        Distinct-All Taken expected
          (all_called wrong_kind adds multiplies subtracts net before after) expected-Distinct all
          (sym count) ((_, sum), ((_, product), ((_, difference), tt)))

    lines-Has :
        (lines : List Line) (r : Response) (line : Line)
        → Yields
            (async_line wrong_kind)
            (all_called wrong_kind adds multiplies subtracts net before after)
            lines
        → Has (all_called wrong_kind adds multiplies subtracts net before after) r
        → async_line wrong_kind r ≡ ok line
        → Has lines line
    lines-Has lines r line yields (front, back, made) k =
        Yields-Has (async_line wrong_kind) front back lines r line
          (subst (λ z. Yields (async_line wrong_kind) z lines) made yields) k

    lines_Perm :
        (lines : List Line)
        → AllThere
        → Yields
            (async_line wrong_kind)
            (all_called wrong_kind adds multiplies subtracts net before after)
            lines
        → ThreeCalls
        → Perm lines answer_lines
    lines_Perm lines (sum, (product, (difference, _))) yields count =
        let (first, (second, (third, _))) = expected_lines wrong_kind in
        Distinct-Perm answer_lines lines answer_lines-Distinct
          (
            lines-Has lines _ _ yields sum first,
            (
              lines-Has lines _ _ yields product second,
              (lines-Has lines _ _ yields difference third, tt),
            ),
          )
          (omega (
            arith,
            Yields-length (async_line wrong_kind)
                (all_called wrong_kind adds multiplies subtracts net before after) lines yields,
            count,
          ))

    -- Against the calculator, whatever the order in which the handlers run, the program prints the
    -- three results, in some order, before or after the line of `run_for`, counts three calls and
    -- returns 0: if each of the three sessions has four turns, and has as its one outcome the body
    -- that a session of a server that offers the calculator's functions writes for the body that
    -- the client's session sent; and if the texts of the requests and of their responses are read
    -- back as written.
    pub async_main-prints :
        (m : Arithmetic) {W : Type 0} (g : Registry W)
        → IsFair (before ++ after) (three wrong_kind adds multiplies subtracts net)
        → Offers m g
        → IsServed g adding (pos 1) (pos 2) (pos 1) (sent 0) (outcomes 0)
        → IsServed g multiplying (pos 3) (pos 4) (pos 2) (sent 1) (outcomes 1)
        → IsServed g subtracting (pos 20) (pos 5) (pos 3) (sent 2) (outcomes 2)
        → (first : List Line) × (second : List Line) × Perm (first ++ second) answer_lines
          × (async_main wrong_kind adds multiplies subtracts before after net
              ≡ ok (printed before after 3 first second, 0))
    unfolding ◌+ℤ◌ ◌*ℤ◌ ◌-ℤ◌
    async_main-prints m g fair offers sum product difference =
        elim (ending wrong_kind adds multiplies subtracts net before after) [
          | prints first second same taken ends ↦
              let every =
                subst (λ z. Yields (async_line wrong_kind) z (first ++ second)) same taken in
              let total : length first + length second ≡ 3 = omega (
                arith,
                Yields-length (async_line wrong_kind)
                    (all_called wrong_kind adds multiplies subtracts net before after)
                    (first ++ second) every,
                length-append first second,
                count,
              ) in
              (
                first,
                second,
                lines_Perm (first ++ second) all every count,
                ends ∙ ap (λ z. ok (printed before after z first second, 0)) total,
              )
          | throws front lines r later last more taken thrown ends ↦
              let (line, fine) =
                All-middle Taken front later r
                  (subst (All Taken) (more ∙ ap (λ z. z ++ later) last) (called-Taken all count)) in
              absurd (ground arith)
        ]
      where
        all : AllThere
        all = (
          served-Has m g offers 0 adding (pos 1) (pos 2) (pos 1) (omega arith) (omega arith)
              (omega arith) sent-requests.0 sum,
          (
            served-Has m g offers 1 multiplying (pos 3) (pos 4) (pos 2) (omega arith) (omega arith)
                (omega arith) sent-requests.1 product,
            (
              served-Has m g offers 2 subtracting (pos 20) (pos 5) (pos 3) (omega arith)
                  (omega arith) (omega arith) sent-requests.2 difference,
              tt,
            ),
          ),
        )

        count : ThreeCalls
        count = three_calls wrong_kind adds multiplies subtracts net before after fair
