-- ===== src/Prelude/Text.antt =====
-- Texts: the copy that stops at the first NUL, and decimal numerals.
use Prim.Native.Nat.{ℕ, zero, suc, ◌/◌, ◌%◌}
use Prim.Native.Char.{Char, code}
use Prim.Native.String.{String, ◌++◌}
use text.Mathlib.TextLemmas.{nil-append, cons-append}
use mathlib.Core.Path.{◌≡◌, refl}
use mathlib.Core.Bool.{Bool, true, false, ◌&&◌, ◌||◌, not}
use mathlib.Core.Logic.{inl, inr}
use native.Mathlib.Omega.{arith}
use jsonrpc_for_cpp.Prelude.Tests.{◌==◌, if◌then◌else◌, ltb, Bool-cases}

-- `std::string(p)` for a `const char* p` into the text: what stands before the first NUL.
unfoldable pub c_str : String → String
c_str String.[] = String.[]
c_str (String.◌∷◌ c s) = if code c == 0 then String.[] else String.◌∷◌ c (c_str s)

-- No character of the text is NUL.
abbrev pub no_nul : String → Bool
no_nul String.[] = true
no_nul (String.◌∷◌ c s) = not (code c == 0) && no_nul s

pub c_str_id : (s : String) → no_nul s ≡ true → c_str s ≡ s
unfolding c_str
c_str_id String.[] h = refl
c_str_id (String.◌∷◌ c s) h = ground (arith, c_str_id s)

pub no_nul-c_str : (s : String) → no_nul (c_str s) ≡ true
unfolding c_str
no_nul-c_str String.[] = refl
no_nul-c_str (String.◌∷◌ c s) = elim (Bool-cases (code c == 0)) [
  | inl e ↦ rw e refl
  | inr e ↦ rw e (rw e (no_nul-c_str s))
]

pub no_nul-append : (s t : String) → no_nul s ≡ true → no_nul t ≡ true → no_nul (s ++ t) ≡ true
no_nul-append String.[] t h k = rw nil-append k
no_nul-append (String.◌∷◌ c s) t h k = rw cons-append (ground (arith, no_nul-append s t))

-- `operator<` of `std::string`, byte by byte; UTF-8 orders characters by their codes.
unfoldable pub str_ltb : String → String → Bool
str_ltb s String.[] = false
str_ltb String.[] (String.◌∷◌ d t) = true
str_ltb (String.◌∷◌ c s) (String.◌∷◌ d t) =
    let rest = str_ltb s t in ltb (code c) (code d) || (code c == code d && rest)

pub str_ltb_asym : (s t : String) → str_ltb s t ≡ true → str_ltb t s ≡ false
unfolding str_ltb
str_ltb_asym String.[] String.[] h = absurd (ground arith)
str_ltb_asym (String.◌∷◌ c s) String.[] h = absurd (ground arith)
str_ltb_asym String.[] (String.◌∷◌ d t) h = refl
str_ltb_asym (String.◌∷◌ c s) (String.◌∷◌ d t) h = ground (arith, str_ltb_asym s t)

digit : ℕ → Char
digit zero = "0"
digit (suc zero) = "1"
digit (suc (suc zero)) = "2"
digit (suc (suc (suc zero))) = "3"
digit (suc (suc (suc (suc zero)))) = "4"
digit (suc (suc (suc (suc (suc zero))))) = "5"
digit (suc (suc (suc (suc (suc (suc zero)))))) = "6"
digit (suc (suc (suc (suc (suc (suc (suc zero))))))) = "7"
digit (suc (suc (suc (suc (suc (suc (suc (suc zero)))))))) = "8"
digit _ = "9"

-- The digits of `n` before `rest`; the number of digits is at most `n + 1`.
digits_onto : ℕ → ℕ → String → String
unfolding digit
digits_onto zero n rest = rest
digits_onto (suc fuel) n rest =
    let here : String = String.◌∷◌ (digit (n % 10)) rest in
    let more = digits_onto fuel (n / 10) here in if ltb n 10 then here else more

-- `std::to_string` of an unsigned number.
unfoldable pub to_string : ℕ → String
unfolding digits_onto
to_string n = digits_onto (suc n) n String.[]
