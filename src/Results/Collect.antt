-- ===== src/Results/Collect.antt =====
-- A loop that collects the results of a fallible call on each element of a list.
use jsonrpc_for_cpp.Prelude.{
  List, [], ◌∷◌, ◌++◌, ◌≡◌, refl, subst, inl, inr, arith, length, ℕ, ap, get_elem?, some, suc,
}
use jsonrpc_for_cpp.Prelude.Int.{ℤ}
use jsonrpc_for_cpp.Json.{JsonLib}
use jsonrpc_for_cpp.Results.Core.{Exception, Result, ok, throw, ◌>>=◌, OnlyCode, Result-cases}

module _ ⦃J : JsonLib⦄ where
  -- `for (x : xs) results.push_back(f(x));`, ended by the first exception.
  unfoldable pub collect {ℓ κ} :
      {A : Type ℓ} {B : Type κ} → (A → Result B) → List A → Result (List B)
  collect f [] = ok []
  collect f (x ∷ xs) = do y ← f x; ys ← collect f xs; ok (y ∷ ys)

  -- Element by element, the action answers the first list with the second.
  abbrev pub Yields {ℓ} : {A : Type ℓ} {B : Type 0} → (A → Result B) → List A → List B → Type 0
  Yields f [] [] = Unit
  Yields f [] (y ∷ ys) = ⊥
  Yields f (x ∷ xs) [] = ⊥
  Yields f (x ∷ xs) (y ∷ ys) = (f x ≡ ok y) × Yields f xs ys

  module _ {ℓ} {A : Type ℓ} {B : Type 0} (f : A → Result B) where
    pub collect_sound : (xs : List A) (ys : List B) → collect f xs ≡ ok ys → Yields f xs ys
    unfolding collect
    collect_sound [] [] e = tt
    collect_sound [] (y ∷ ys) e = cc
    collect_sound (x ∷ xs) ys e = elim (Result-cases (f x)) [
      | inl (y, h) ↦ elim (Result-cases (collect f xs)) [
        | inl (zs, k) ↦
            let same : y ∷ zs ≡ ys = ground arith in
            subst (Yields f (x ∷ xs)) same (h, collect_sound xs zs k)
        | inr (x', k) ↦ ground arith
      ]
      | inr (x', h) ↦ ground arith
    ]

    pub collect_complete : (xs : List A) (ys : List B) → Yields f xs ys → collect f xs ≡ ok ys
    unfolding collect
    collect_complete [] [] h = refl
    collect_complete [] (y ∷ ys) h = elim h [ ]
    collect_complete (x ∷ xs) [] h = elim h [ ]
    collect_complete (x ∷ xs) (y ∷ ys) (h, t) = rw (h, collect_complete xs ys t)

    -- The exception is that of the first element that is refused.
    pub collect_refused :
        (xs zs : List A) (ys : List B) (x : A) (e : Exception)
        → Yields f xs ys
        → f x ≡ throw e
        → collect f (xs ++ x ∷ zs) ≡ throw e
    unfolding collect
    collect_refused [] zs ys x e h k = rw k
    collect_refused (w ∷ ws) zs [] x e h k = elim h [ ]
    collect_refused (w ∷ ws) zs (y ∷ ys) x e (h, t) k = rw (h, collect_refused ws zs ys x e t k)

    pub collect-OnlyCode :
        (code : ℤ) (xs : List A) → ((x : A) → OnlyCode code (f x)) → OnlyCode code (collect f xs)
    unfolding collect
    collect-OnlyCode code [] h = tt
    collect-OnlyCode code (x ∷ xs) h = ground (arith, h x, collect-OnlyCode code xs h)

  -- Some element of the list is the one whose exception ends the loop.
  pub collect_thrown :
      {A B : Type 0} (f : A → Result B) (xs : List A) (x : Exception)
      → collect f xs ≡ throw x
      → (i : ℕ) × (a : A) × (get_elem? xs i ≡ some a) × (f a ≡ throw x)
  unfolding collect
  collect_thrown f [] x h = absurd (ground arith)
  collect_thrown f (a ∷ xs) x h = elim (Result-cases (f a)) [
    | inr (y, k) ↦ (0, a, refl, ground arith)
    | inl (b, k) ↦ elim (Result-cases (collect f xs)) [
      | inl (bs, g) ↦ absurd (ground arith)
      | inr (y, g) ↦
          let (i, a', found, thrown) = collect_thrown f xs y g in (suc i, a', found, ground arith)
    ]
  ]

  pub collect-append :
      {A B : Type 0} (f : A → Result B) (xs ys : List A)
      → collect f (xs ++ ys)
        ≡ (collect f xs >>= λ first. collect f ys >>= λ second. ok (first ++ second))
  unfolding collect
  collect-append f [] ys = elim (Result-cases (collect f ys)) [
    | inl (zs, h) ↦ rw h refl
    | inr (e, h) ↦ rw h refl
  ]
  collect-append f (x ∷ xs) ys = ground (arith, collect-append f xs ys)

  pub Yields-length :
      {A B : Type 0} (f : A → Result B) (xs : List A) (ys : List B)
      → Yields f xs ys
      → length ys ≡ length xs
  Yields-length f [] [] h = refl
  Yields-length f [] (y ∷ ys) h = elim h [ ]
  Yields-length f (x ∷ xs) [] h = elim h [ ]
  Yields-length f (x ∷ xs) (y ∷ ys) (h, t) = ap suc (Yields-length f xs ys t)

  pub Yields-append :
      {A B : Type 0} (f : A → Result B) (xs zs : List A) (ys ws : List B)
      → Yields f xs ys
      → Yields f zs ws
      → Yields f (xs ++ zs) (ys ++ ws)
  Yields-append f [] zs [] ws h k = k
  Yields-append f [] zs (y ∷ ys) ws h k = elim h [ ]
  Yields-append f (x ∷ xs) zs [] ws h k = elim h [ ]
  Yields-append f (x ∷ xs) zs (y ∷ ys) ws (h, t) k = (h, Yields-append f xs zs ys ws t k)
