-- ===== src/IndexSequence.antt =====
-- include/jsonrpc/detail/index_sequence.hpp: the indices by which a pack is expanded. A pack of
-- numbers is a list.
use native.Mathlib.Omega.{arith}
use jsonrpc_for_cpp.Prelude.{
  List, [], ◌∷◌, ◌++◌, ℕ, zero, suc, ◌+◌, ◌≤◌, ◌<◌, ◌≡◌, none, some, refl, ap, ◌∙◌, get_elem?,
  length,
}

-- `make_index_sequence_impl<N, Is...>`
unfoldable pub make_index_sequence_impl : ℕ → List ℕ → List ℕ
make_index_sequence_impl zero is = is
make_index_sequence_impl (suc n) is = make_index_sequence_impl n (n ∷ is)

unfoldable pub make_index_sequence : ℕ → List ℕ
unfolding make_index_sequence_impl
make_index_sequence n = make_index_sequence_impl n []

length-make_index_sequence_impl :
    (n : ℕ) (is : List ℕ) → length (make_index_sequence_impl n is) ≡ n + length is
unfolding make_index_sequence_impl
length-make_index_sequence_impl zero is = omega arith
length-make_index_sequence_impl (suc n) is =
    omega (arith, length-make_index_sequence_impl n (n ∷ is))

pub length-make_index_sequence : (n : ℕ) → length (make_index_sequence n) ≡ n
unfolding make_index_sequence
length-make_index_sequence n = omega (arith, length-make_index_sequence_impl n [])

module _ {ℓ} {A : Type ℓ} where
  -- `arr[Is]...`. An index out of range is not met: the sizes agree.
  unfoldable pub elements_at : List ℕ → List A → List A
  elements_at [] arr = []
  elements_at (i ∷ is) arr =
      let rest = elements_at is arr in elim (get_elem? arr i) [ none ↦ rest | some a ↦ a ∷ rest ]

  take : ℕ → List A → List A
  take zero xs = []
  take (suc n) [] = []
  take (suc n) (x ∷ xs) = x ∷ take n xs

  take_all : (xs : List A) (n : ℕ) → length xs ≡ n → take n xs ++ [] ≡ xs
  unfolding take
  take_all [] zero h = refl
  take_all [] (suc n) h = refl
  take_all (x ∷ xs) zero h = absurd (omega arith)
  take_all (x ∷ xs) (suc n) h = ap (◌∷◌ x) (take_all xs n (omega arith))

  take-suc :
      (n : ℕ) (xs ys : List A)
      → n < length xs
      → (a : A) × (get_elem? xs n ≡ some a) × (take n xs ++ a ∷ ys ≡ take (suc n) xs ++ ys)
  unfolding take
  take-suc n [] ys h = absurd (omega arith)
  take-suc zero (x ∷ xs) ys h = (x, refl, refl)
  take-suc (suc n) (x ∷ xs) ys h =
      let (a, found, same) = take-suc n xs ys (omega arith) in (a, found, ap (◌∷◌ x) same)

  elements_at-impl :
      (n : ℕ) (is : List ℕ) (arr : List A)
      → n ≤ length arr
      → elements_at (make_index_sequence_impl n is) arr ≡ take n arr ++ elements_at is arr
  unfolding make_index_sequence_impl take elements_at
  elements_at-impl zero is arr h = refl
  elements_at-impl (suc n) is arr h =
      let (a, found, same) = take-suc n arr (elements_at is arr) (omega arith) in
      elements_at-impl n (n ∷ is) arr (omega arith) ∙ rw (found, elements_at) same

  -- To read an array of the right size by the indices that `make_index_sequence` makes is to read
  -- it from its first element to its last.
  pub elements_at-make_index_sequence :
      (arr : List A) (n : ℕ) → length arr ≡ n → elements_at (make_index_sequence n) arr ≡ arr
  unfolding make_index_sequence elements_at
  elements_at-make_index_sequence arr n h =
      elements_at-impl n [] arr (omega arith) ∙ take_all arr n h

  index_sequence_for : List A → List ℕ
  unfolding make_index_sequence
  index_sequence_for ts = make_index_sequence (length ts)

  -- The indices of a pack read it from its first element to its last.
  elements_at-index_sequence_for : (ts : List A) → elements_at (index_sequence_for ts) ts ≡ ts
  unfolding index_sequence_for
  elements_at-index_sequence_for ts = elements_at-make_index_sequence ts (length ts) refl
