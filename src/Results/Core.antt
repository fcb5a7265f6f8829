-- ===== src/Results/Core.antt =====
-- The results of calls that may throw.
use jsonrpc_for_cpp.Prelude.{
  Bool, true, false, Option, none, some, ◌≡◌, refl, ◌⊎◌, inl, inr, String,
}
use jsonrpc_for_cpp.Prelude.Int.{ℤ}
use jsonrpc_for_cpp.Json.{JsonLib}
use jsonrpc_for_cpp.Errors.{Error}

module _ ⦃J : JsonLib⦄ where
  -- What a call may throw: an `Error`, another `std::exception` with its `what()`, or any other
  -- object.
  pub data Exception : Type 0 where
    rpc : Error → Exception
    std_exception : String → Exception
    foreign : Exception

  pub data Result {ℓ} (A : Type ℓ) : Type ℓ where
    ok : A → Result A
    throw : Exception → Result A

  infixl 5 ◌>>=◌ ◌>>◌
  abbrev pub ◌>>=◌ {ℓ κ} : {A : Type ℓ} {B : Type κ} → Result A → (A → Result B) → Result B
  ok a >>= f = f a
  throw e >>= f = throw e

  abbrev pub ◌>>◌ {ℓ} : {B : Type ℓ} → Result (Unit {0}) → Result B → Result B
  m >> k = m >>= λ _. k

  -- `if (!test) throw e;`
  abbrev pub require : Bool → Exception → Result (Unit {0})
  require true e = ok tt
  require false e = throw e

  abbrev pub require_some {ℓ} : {A : Type ℓ} → Option A → Exception → Result A
  require_some none e = throw e
  require_some (some a) e = ok a

  -- Whatever is thrown is an `Error` with this code.
  abbrev pub OnlyCode {ℓ} : {A : Type ℓ} → ℤ → Result A → Type 0
  OnlyCode code (ok a) = Unit
  OnlyCode code (throw (rpc e)) = e.code ≡ code
  OnlyCode code (throw (std_exception what)) = ⊥
  OnlyCode code (throw foreign) = ⊥

  -- Nothing but an `Error` is thrown.
  abbrev pub OnlyErrors {ℓ} : {A : Type ℓ} → Result A → Type 0
  OnlyErrors (throw (std_exception what)) = ⊥
  OnlyErrors (throw foreign) = ⊥
  OnlyErrors _ = Unit

  pub OnlyCode-OnlyErrors {ℓ} :
      {A : Type ℓ} (code : ℤ) (m : Result A) → OnlyCode code m → OnlyErrors m
  OnlyCode-OnlyErrors code (ok a) h = tt
  OnlyCode-OnlyErrors code (throw (rpc e)) h = tt
  OnlyCode-OnlyErrors code (throw (std_exception what)) h = elim h [ ]
  OnlyCode-OnlyErrors code (throw foreign) h = elim h [ ]

  pub OnlyErrors-cases {ℓ} :
      {A : Type ℓ} (m : Result A)
      → OnlyErrors m
      → ((a : A) × (m ≡ ok a)) ⊎ ((e : Error) × (m ≡ throw (rpc e)))
  OnlyErrors-cases (ok a) h = inl (a, refl)
  OnlyErrors-cases (throw (rpc e)) h = inr (e, refl)
  OnlyErrors-cases (throw (std_exception what)) h = elim h [ ]
  OnlyErrors-cases (throw foreign) h = elim h [ ]

  pub bind-OnlyErrors {ℓ κ} :
      {A : Type ℓ} {B : Type κ} (m : Result A) (f : A → Result B)
      → OnlyErrors m
      → ((a : A) → OnlyErrors (f a))
      → OnlyErrors (m >>= f)
  bind-OnlyErrors (ok a) f h k = k a
  bind-OnlyErrors (throw e) f h k = h

  abbrev pub Fails {ℓ} : {A : Type ℓ} → Result A → Type 0
  Fails (ok a) = ⊥
  Fails (throw e) = Unit

  pub Result-cases {ℓ} :
      {A : Type ℓ} (m : Result A) → ((a : A) × (m ≡ ok a)) ⊎ ((e : Exception) × (m ≡ throw e))
  Result-cases (ok a) = inl (a, refl)
  Result-cases (throw e) = inr (e, refl)
