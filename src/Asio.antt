-- ===== src/Asio.antt =====
-- What the code uses of Boost.Asio, which is not part of the repository: reports of operations that
-- may fail, and the acceptor of a server as an interface.
use jsonrpc_for_cpp.Prelude.{◌≡◌, ◌⊎◌, inl, inr, refl, String, ℕ, List, [], ◌∷◌}

-- An error code: its `message()`, and the `what()` of the exception that carries it.
pub record Failure : Type 0 where
  pub message : String
  pub what : String

pub data Report (A : Type 0) : Type 0 where
  done : A → Report A
  broken : Failure → Report A

pub Report-cases :
    {A : Type 0} (r : Report A) → ((a : A) × (r ≡ done a)) ⊎ ((f : Failure) × (r ≡ broken f))
Report-cases (done a) = inl (a, refl)
Report-cases (broken f) = inr (f, refl)

-- The operations of the acceptor, over its state and that of the system around it.
pub record Acceptors (N : Type 0) : Type 1 where
  pub Endpoint : Type 0
  pub make_endpoint : String → ℕ → Report Endpoint
  pub open_acceptor : Endpoint → N → Report (Unit {0}) × N
  pub set_reuse_address : N → Report (Unit {0}) × N
  pub bind : Endpoint → N → Report (Unit {0}) × N
  pub listen : N → Report (Unit {0}) × N
  pub close : N → N

-- Operations one after the other, up to the first that fails.
abbrev pub run_all : {N : Type 0} → List (N → Report (Unit {0}) × N) → N → Report (Unit {0}) × N
run_all [] n = (done tt, n)
run_all (operation ∷ rest) n =
    let (r, n') = operation n in elim r [ done _ ↦ run_all rest n' | broken f ↦ (broken f, n') ]
