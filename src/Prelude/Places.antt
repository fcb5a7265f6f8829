-- ===== src/Prelude/Places.antt =====
-- Where an element stands in a list, and when two lists have the same elements.
use mathlib.Core.Path.{◌≡◌, ap, sym, ◌∙◌, subst}
use mathlib.Core.Logic.{◌≢◌}
use mathlib.Core.List.{List, [], ◌∷◌, ◌++◌, Perm, perm_middle}
use mathlib.Core.List.Perm
use native.Mathlib.Omega.{arith}
use jsonrpc_for_cpp.Prelude.Lists.{length, All, length-append}

module _ {A : Type 0} where
  -- The element stands in the list.
  abbrev pub Has : List A → A → Type 0
  Has ys x = (front : List A) × (back : List A) × (ys ≡ front ++ x ∷ back)

  -- No element stands twice.
  abbrev pub Distinct : List A → Type 0
  Distinct [] = Unit
  Distinct (x ∷ xs) = All (λ z. z ≢ x) xs × Distinct xs

  -- Another element stands there without this one as well.
  Has-remove : (f g b c : List A) (x z : A) → f ++ x ∷ b ≡ g ++ z ∷ c → z ≢ x → Has (f ++ b) z
  Has-remove [] [] b c x z h other = absurd (other (sym (cc h)))
  Has-remove [] (y ∷ g) b c x z h other = (g, c, ground arith)
  Has-remove (y ∷ f) [] b c x z h other = ([], f ++ b, ap (λ u. u ∷ f ++ b) (ground arith))
  Has-remove (y ∷ f) (y' ∷ g) b c x z h other =
      let (front, back, made) = Has-remove f g b c x z (ground arith) other in
      (y ∷ front, back, ap (λ u. y ∷ u) made)

  Has-others :
      (xs ys f b : List A) (x : A)
      → ys ≡ f ++ x ∷ b
      → All (λ z. z ≢ x) xs
      → All (Has ys) xs
      → All (Has (f ++ b)) xs
  Has-others [] ys f b x h others all = tt
  Has-others (z ∷ zs) ys f b x h (other, others) ((g, c, made), all) =
      (Has-remove f g b c x z (sym h ∙ made) other, Has-others zs ys f b x h others all)

  -- A list of as many elements that has all of these distinct ones is one of their orders.
  pub Distinct-Perm :
      (xs ys : List A) → Distinct xs → All (Has ys) xs → length xs ≡ length ys → Perm ys xs
  Distinct-Perm [] [] distinct all h = Perm.refl []
  Distinct-Perm [] (y ∷ ys) distinct all h = absurd (omega arith)
  Distinct-Perm (x ∷ xs) ys (others, distinct) ((f, b, made), all) h =
      subst (λ z. Perm z (x ∷ xs)) (sym made)
        (Perm.trans (perm_middle f b) (
          Perm.cons x (
            Distinct-Perm xs (f ++ b) distinct (Has-others xs ys f b x made others all)
              (omega (arith, ap length made, length-append f (x ∷ b), length-append f b)))))

  module _ {κ} (P : A → Type κ) where
    All-insert : (f b : List A) (x : A) → P x → All P (f ++ b) → All P (f ++ x ∷ b)
    All-insert [] b x p h = (p, h)
    All-insert (y ∷ f) b x p (q, h) = (q, All-insert f b x p h)

    -- What holds of these elements then holds of all.
    pub Distinct-All :
        (xs ys : List A)
        → Distinct xs
        → All (Has ys) xs
        → length xs ≡ length ys
        → All P xs
        → All P ys
    Distinct-All [] [] distinct all h k = tt
    Distinct-All [] (y ∷ ys) distinct all h k = absurd (omega arith)
    Distinct-All (x ∷ xs) ys (others, distinct) ((f, b, made), all) h (p, ps) =
        subst (All P) (sym made) (
          All-insert f b x p (
            Distinct-All xs (f ++ b) distinct (Has-others xs ys f b x made others all)
              (omega (arith, ap length made, length-append f (x ∷ b), length-append f b)) ps))
