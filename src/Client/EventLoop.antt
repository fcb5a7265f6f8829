-- ===== src/Client/EventLoop.antt =====
-- `run`, `poll`, `run_for` and `run_until_idle` of include/jsonrpc/impl/client.ipp. The event loop
-- is a parameter: `poll` runs what is ready, and gives the number of handlers that it ran, or the
-- exception that left one of them.
use native.Mathlib.Omega.{arith}
use jsonrpc_for_cpp.Json.{JsonLib}
use jsonrpc_for_cpp.Results.{Result, ok, throw, Exception, Result-cases, ◌>>=◌}
use jsonrpc_for_cpp.Prelude.{
  ◌∙◌, ap, subst, ℕ, zero, suc, ◌+◌, ◌%◌, ◌^◌, ◌<◌, ◌==◌, ◌≡◌, ◌⊎◌, inl, inr, refl, true, false,
  Option, none, some,
}

module _ ⦃J : JsonLib⦄ where
  pub record IoContext (N : Type 0) : Type 1 where
    pub Duration : Type 0
    pub run : N → Result (Unit {0}) × N
    pub poll : N → Result ℕ × N
    pub run_for : Duration → N → Result ℕ × N

  module _ {N : Type 0} (io : IoContext N) where
    abbrev pub run : N → Result (Unit {0}) × N
    run = io.run

    abbrev pub poll : N → Result ℕ × N
    poll = io.poll

    abbrev pub run_for : io.Duration → N → Result ℕ × N
    run_for = io.run_for

    -- The loop, with its `size_t` total; `none` is what is left of it without fuel.
    unfoldable pub idle_loop : ℕ → ℕ → N → Option (Result ℕ × N)
    idle_loop zero total n = none
    idle_loop (suc fuel) total n =
        let (r, n') = io.poll n in
        elim r [
          | throw x ↦ some (throw x, n')
          | ok processed ↦ elim (processed == 0) [
            | true ↦ some (ok total, n')
            | false ↦ idle_loop fuel ((total + processed) % 2 ^ 64) n'
          ]
        ]

    abbrev pub run_until_idle : ℕ → N → Option (Result ℕ × N)
    run_until_idle fuel = idle_loop fuel 0

    -- Polls of which each but the last ran something and threw nothing: the last ran nothing, or
    -- threw. The number is that of the handlers that the others ran.
    pub data Drains : ℕ → Result (Unit {0}) → N → N → Type 0 where
      idle : {n n' : N} → io.poll n ≡ (ok 0, n') → Drains 0 (ok tt) n n'
      broken : {n n' : N} {x : Exception} → io.poll n ≡ (throw x, n') → Drains 0 (throw x) n n'
      busy :
          {total k : ℕ} {end : Result (Unit {0})} {n n' last : N}
          → io.poll n ≡ (ok (suc k), n')
          → Drains total end n' last
          → Drains (suc k + total) end n last

    -- A poll throws, runs nothing, or runs something.
    poll-cases :
        (n : N)
        → ((x : Exception) × ((io.poll n).0 ≡ throw x))
          ⊎ (((io.poll n).0 ≡ ok 0) ⊎ ((k : ℕ) × ((io.poll n).0 ≡ ok (suc k))))
    poll-cases n = elim (Result-cases (io.poll n).0) [
      | inr (x, h) ↦ inl (x, h)
      | inl (zero, h) ↦ inr (inl h)
      | inl (suc k, h) ↦ inr (inr (k, h))
    ]

    goes_round :
        (fuel sum k : ℕ) (n : N)
        → (io.poll n).0 ≡ ok (suc k)
        → idle_loop (suc fuel) sum n ≡ idle_loop fuel ((sum + suc k) % 2 ^ 64) (io.poll n).1
    unfolding idle_loop
    goes_round fuel sum k n g =
        let more : (suc k == 0) ≡ false = ground arith in rw (g, idle_loop, more) refl

    module _ (rank : N → ℕ)
        (falls : (n : N) (k : ℕ) (n' : N) → io.poll n ≡ (ok (suc k), n') → rank n' < rank n) where
      small : (sum : ℕ) → sum < 2 ^ 64 → sum ≡ (sum + 0) % 2 ^ 64
      small sum h = omega arith

      idle_loop-Drains :
          (fuel sum : ℕ) (n : N)
          → rank n < fuel
          → sum < 2 ^ 64
          → (total : ℕ) × (end : Result (Unit {0})) × (last : N) × Drains total end n last
            × (idle_loop fuel sum n ≡ some ((end >>= λ u. ok ((sum + total) % 2 ^ 64)), last))
      unfolding idle_loop
      idle_loop-Drains zero sum n h b = absurd (omega arith)
      idle_loop-Drains (suc fuel) sum n h b = elim (poll-cases n) [
        | inl (x, e) ↦ (
          0,
          throw x,
          (io.poll n).1,
          broken (ap (λ z. (z, (io.poll n).1)) e),
          rw (e, idle_loop) refl,
        )
        | inr (inl e) ↦ (
          0,
          ok tt,
          (io.poll n).1,
          idle (ap (λ z. (z, (io.poll n).1)) e),
          rw (e, idle_loop) (ap (λ z. some (ok z, (io.poll n).1)) (small sum b)),
        )
        | inr (inr (k, g)) ↦
            (let n' = (io.poll n).1 in
              let e : io.poll n ≡ (ok (suc k), n') = ap (λ z. (z, n')) g in
              let less : rank n' < rank n = falls n k n' e in
              let (total, end, last, drains, made) =
                idle_loop-Drains fuel ((sum + suc k) % 2 ^ 64) n' (omega (arith, less))
                  (omega arith) in
              let same : ((sum + suc k) % 2 ^ 64 + total) % 2 ^ 64
                  ≡ (sum + (suc k + total)) % 2 ^ 64 =
                omega arith in
              (
                suc k + total,
                end,
                last,
                busy e drains,
                goes_round fuel sum k n g
                    ∙ subst
                        (λ z.
                          idle_loop fuel ((sum + suc k) % 2 ^ 64) n'
                          ≡ some ((end >>= λ u. ok z), last))
                        same made,
              ))
      ]

      -- If each poll that runs a handler and throws nothing leaves less to do, by some measure of
      -- the state, then `run_until_idle` ends, with any fuel above the measure: after a poll that
      -- ran nothing, and with the number of handlers that its polls ran, as a `size_t`; or after
      -- the first poll that threw, in its exception.
      pub run_until_idle-Drains :
          (fuel : ℕ) (n : N)
          → rank n < fuel
          → (total : ℕ) × (end : Result (Unit {0})) × (last : N) × Drains total end n last
            × (run_until_idle fuel n ≡ some ((end >>= λ u. ok (total % 2 ^ 64)), last))
      run_until_idle-Drains fuel n h =
          let (total, end, last, drains, made) = idle_loop-Drains fuel 0 n h (omega arith) in
          let plain : 0 + total ≡ total = omega arith in
          (
            total,
            end,
            last,
            drains,
            subst (λ z. run_until_idle fuel n ≡ some ((end >>= λ u. ok (z % 2 ^ 64)), last)) plain
                made,
          )
