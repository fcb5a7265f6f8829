-- ===== src/Examples/Retry/Attempts.antt =====
-- How often the program of the retries calls, and how it ends.
use jsonrpc_for_cpp.Examples.{Line, err, out}
use jsonrpc_for_cpp.Errors.{Error}
use jsonrpc_for_cpp.Client.{new_client, set_timeout}
use jsonrpc_for_cpp.Client.Contract.{
  ClientApi, Promises, client_api, client_api-Promises, int_call-cases,
}
use jsonrpc_for_cpp.ClientSession.{Network}
use jsonrpc_for_cpp.Examples.Retry.{
  Event, prints, sleeps, max_attempts, ping, rounds, turn, retry_main, tries, append,
}
use jsonrpc_for_cpp.Json.{JsonLib}
use jsonrpc_for_cpp.Prelude.{
  List, [], ◌∷◌, ◌++◌, ◌≡◌, refl, ℕ, zero, suc, ◌+◌, ◌<◌, ◌⊎◌, inl, inr, arith, ◌==◌, false,
}
use jsonrpc_for_cpp.Prelude.Int.{ℤ, pos}
use jsonrpc_for_cpp.Results.{Result, ok, throw, rpc, Fails}

-- The seconds that the program sleeps.
abbrev pub slept : List Event → ℕ
slept [] = 0
slept (prints line ∷ events) = slept events
slept (sleeps seconds ∷ events) = seconds + slept events

slept-append : (xs ys : List Event) → slept (xs ++ ys) ≡ slept xs + slept ys
slept-append [] ys = omega arith
slept-append (prints line ∷ xs) ys = slept-append xs ys
slept-append (sleeps seconds ∷ xs) ys = ground (arith, slept-append xs ys)

module _ ⦃J : JsonLib⦄ where
  open J use {Value}

  module _ {N C : Type 0} (api : ClientApi N C) where
    -- The client after so many calls.
    abbrev pub after : ℕ → C → C
    after zero c = c
    after (suc k) c = after k (ping api c).1

    -- The program ends after some refused attempts and one more, which is the last that the loop
    -- allows or succeeds.
    pub record Tried (most : ℕ) (c : C) (result : Result (List Event) × C) : Type 0 where
      pub refused : ℕ
      pub events : List Event
      pub few : refused < most
      pub ended : result ≡ (ok events, after (suc refused) c)
      pub each : (i : ℕ) → i < refused → Fails (ping api (after i c)).0
      pub last : ((z : ℤ) × ((ping api (after refused c)).0 ≡ ok z)) ⊎ (suc refused ≡ most)
      pub waits : slept events ≡ refused

    each_suc :
        (c : C) (k : ℕ)
        → Fails (ping api c).0
        → ((i : ℕ) → i < k → Fails (ping api (after i (ping api c).1)).0)
        → (i : ℕ) → i < suc k
        → Fails (ping api (after i c)).0
    each_suc c k h t zero l = h
    each_suc c k h t (suc i) l = t i (omega arith)

    -- A call that succeeds is the last.
    succeeded :
        (left attempt : ℕ) (c : C) (z : ℤ)
        → (ping api c).0 ≡ ok z
        → Tried (suc left) c (rounds api (suc left) attempt c)
    unfolding rounds turn
    succeeded left attempt c z e = record {
      refused = 0;
      events = tries attempt ∷ prints (out "调用成功") ∷ [];
      few = omega arith;
      ended = ground arith;
      each = λ i l. absurd (omega arith);
      last = inl (z, e);
      waits = refl;
    }

    failure : Error → Line
    failure x = err (append "调用失败: " x.message)

    -- A round that fails before the last allowed one is followed by the other rounds.
    rounds_next :
        (left attempt : ℕ) (c d : C) (x : Error) (later : List Event)
        → (ping api c).0 ≡ throw (rpc x)
        → (attempt == max_attempts) ≡ false
        → rounds api left (attempt + 1) (ping api c).1 ≡ (ok later, d)
        → rounds api (suc left) attempt c
          ≡ (ok (tries attempt ∷ prints (failure x) ∷ sleeps 1 ∷ later), d)
    unfolding rounds turn failure
    rounds_next left attempt c d x later e open_end rest = ground arith

    rounds-Tried :
        (promises : Promises api) (left attempt : ℕ) (c : C)
        → attempt + left ≡ max_attempts
        → Tried (suc left) c (rounds api (suc left) attempt c)
    unfolding rounds turn failure
    rounds-Tried promises zero attempt c h = elim (int_call-cases api promises "ping" [] tt c) [
      | inl (z, e) ↦ succeeded 0 attempt c z e
      | inr (x, e) ↦ record {
        refused = 0;
        events = tries attempt ∷ prints (failure x) ∷ prints (err "达到最大重试次数") ∷ [];
        few = omega arith;
        ended = ground arith;
        each = λ i l. absurd (omega arith);
        last = inr refl;
        waits = refl;
      }
    ]
    rounds-Tried promises (suc left) attempt c h =
        let t = rounds-Tried promises left (attempt + 1) (ping api c).1 (omega arith) in
        elim (int_call-cases api promises "ping" [] tt c) [
          | inl (z, e) ↦ succeeded (suc left) attempt c z e
          | inr (x, e) ↦ record {
            refused = suc t.refused;
            events = tries attempt ∷ prints (failure x) ∷ sleeps 1 ∷ t.events;
            few = omega (arith, t.few);
            ended =
                rounds_next (suc left) attempt c (after (suc t.refused) (ping api c).1) x t.events e
                  (ground arith) t.ended;
            each = each_suc c t.refused (rw e tt) t.each;
            last = ground (arith, t.last);
            waits = ground (arith, t.waits);
          }
        ]

  -- The program never lets an exception out, whatever the network does. It calls at most three times:
  -- each call but the last has failed, and the last is the third or has succeeded; and it has slept
  -- one second after each call but the last.
  pub retry_main-Tried :
      {N : Type 0} (n : Network N) (net : N)
      → Tried
          (client_api n)
          3
          (set_timeout (pos 500) (new_client "127.0.0.1" 9000 net))
          (retry_main (client_api n) net)
  unfolding retry_main
  retry_main-Tried n net =
      rounds-Tried (client_api n) (client_api-Promises n) 2 1
        (set_timeout (pos 500) (new_client "127.0.0.1" 9000 net)) refl
