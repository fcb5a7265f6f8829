-- ===== src/Prelude/Int.antt =====
-- Signed integers over the native numbers, under the library's names, and the narrowing casts.
use Prim.Native.Nat.{ℕ, zero, suc, ◌+◌, ◌-◌, ◌*◌, ◌%◌, ◌^◌, ◌<◌}
use Prim.Native.String.{String, ◌++◌}
use mathlib.Core.Path.{◌≡◌, refl}
use native.Mathlib.Omega.{arith}
use mathlib.Core.Bool.{Bool, true, false}
use jsonrpc_for_cpp.Prelude.Tests.{ltb, leb, if◌then◌else◌}
use jsonrpc_for_cpp.Prelude.Text.{to_string as to_string_ℕ}

-- `negsuc n` is -(n + 1).
pub data ℤ : Type 0 where
  pos : ℕ → ℤ
  negsuc : ℕ → ℤ

abbrev pos_part : ℤ → ℕ
pos_part (pos n) = n
pos_part (negsuc n) = 0

abbrev neg_part : ℤ → ℕ
neg_part (pos n) = 0
neg_part (negsuc n) = suc n

-- a - b, as an integer.
abbrev sub_ℕ : ℕ → ℕ → ℤ
sub_ℕ a b = if leb b a then pos (a - b) else negsuc (b - a - 1)

infixl 65 ◌+ℤ◌ ◌-ℤ◌
infixl 70 ◌*ℤ◌
unfoldable pub ◌+ℤ◌ : ℤ → ℤ → ℤ
a +ℤ b = sub_ℕ (pos_part a + pos_part b) (neg_part a + neg_part b)

unfoldable pub ◌-ℤ◌ : ℤ → ℤ → ℤ
a -ℤ b = sub_ℕ (pos_part a + neg_part b) (neg_part a + pos_part b)

unfoldable pub ◌*ℤ◌ : ℤ → ℤ → ℤ
a *ℤ b =
    sub_ℕ (pos_part a * pos_part b + neg_part a * neg_part b)
      (pos_part a * neg_part b + neg_part a * pos_part b)

abbrev pub is_zero : ℤ → Bool
is_zero (pos zero) = true
is_zero _ = false

-- The value lies in the range of a signed type with `half` values of each sign.
abbrev pub InRange : ℕ → ℤ → Type 0
InRange half (pos n) = n < half
InRange half (negsuc n) = n < half

-- The test of that.
abbrev pub in_range : ℕ → ℤ → Bool
in_range half (pos n) = ltb n half
in_range half (negsuc n) = ltb n half

pub in_range-InRange : (half : ℕ) (z : ℤ) → InRange half z → in_range half z ≡ true
in_range-InRange half (pos n) h = ground arith
in_range-InRange half (negsuc n) h = ground arith

-- `static_cast<int>` of an `int64_t`: the low 32 bits, read as two's complement.
unfoldable pub to_int32 : ℤ → ℤ
to_int32 (pos n) =
    let low = n % 2 ^ 32 in if ltb low (2 ^ 31) then pos low else negsuc (2 ^ 32 - low - 1)
to_int32 (negsuc n) =
    let low = n % 2 ^ 32 in if ltb low (2 ^ 31) then negsuc low else pos (2 ^ 32 - low - 1)

pub to_int32_id : (z : ℤ) → InRange (2 ^ 31) z → to_int32 z ≡ z
unfolding to_int32
to_int32_id (pos n) h = ground arith
to_int32_id (negsuc n) h = ground arith

pub to_int32-InRange : (z : ℤ) → InRange (2 ^ 31) (to_int32 z)
unfolding to_int32
to_int32-InRange (pos n) = ground arith
to_int32-InRange (negsuc n) = ground arith

-- `std::to_string` of a signed number.
unfoldable pub to_string : ℤ → String
unfolding to_string_ℕ
to_string (pos n) = to_string_ℕ n
to_string (negsuc n) = "-" ++ to_string_ℕ (suc n)

to_string_tests : (to_string (negsuc 32599) ≡ "-32600") × (to_string (pos 0) ≡ "0")
unfolding to_string
to_string_tests = (refl, refl)
