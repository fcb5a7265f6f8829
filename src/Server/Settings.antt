-- ===== src/Server/Settings.antt =====
-- The size of the pool for batches, as a user of the server sets it.
use native.Mathlib.Omega.{arith}
use jsonrpc_for_cpp.Json.{JsonLib}
use jsonrpc_for_cpp.Registry.{get_batch_pool}
use jsonrpc_for_cpp.Registry
use jsonrpc_for_cpp.Results.{ok, throw, std_exception}
use jsonrpc_for_cpp.Prelude.{true, false, ℕ, ◌≡◌, ◌<◌, ◌^◌, max, Bool-cases, inl, inr, ◌⊎◌}
use jsonrpc_for_cpp.Server.{Server, set_batch_concurrency}

module _ ⦃J : JsonLib⦄ where
  module _ {W E N : Type 0} where
    -- A running server refuses a new size, and is left as it was; any other takes it: below 2^32
    -- the next batch then finds a pool of that many threads, but at least one.
    pub set_batch_concurrency_lem :
        (threads : ℕ) (s : Server W E N)
        → threads < 2 ^ 32
        → ((s.running ≡ true)
            × (set_batch_concurrency threads s
                ≡ (throw (std_exception "服务器正在运行时无法调整批量线程池，请先 stop()"), s)))
          ⊎ ((s.running ≡ false)
              × ((set_batch_concurrency threads s).0 ≡ ok tt)
              × ((get_batch_pool (set_batch_concurrency threads s).1.registry).0 ≡ max 1 threads))
    unfolding set_batch_concurrency Registry.set_batch_concurrency get_batch_pool
    set_batch_concurrency_lem threads s h = elim (Bool-cases s.running) [
      | inl on ↦ inl (on, ground arith)
      | inr off ↦ inr (off, ground arith, ground arith)
    ]
