-- ===== src/Converter/Wire.antt =====
-- Where an integer changes on its way from one side to the other.
use native.Mathlib.Omega.{arith}
use jsonrpc_for_cpp.Results.{ok, throw}
use jsonrpc_for_cpp.Prelude.Int.{ℤ, InRange, pos, to_int32, to_int32-InRange}
use jsonrpc_for_cpp.Json.{JsonLib, uint64, int64, parsed, kind-value}
use jsonrpc_for_cpp.Prelude.{ℕ, ◌≡◌, ◌^◌, ◌≢◌, subst}
use jsonrpc_for_cpp.Converter.{int_from_json, uint64_from_json, uint64_converter, mismatch}

module _ ⦃J : JsonLib⦄ where
  open J use {Value, Object, Double, kind, value, parse, serialize}

  -- An `int64_t` outside the range of `int` is accepted as an `int`, and changed to another number
  -- in that range.
  pub int_from_json_wraps :
      (z : ℤ)
      → InRange (2 ^ 63) z
      → ¬ InRange (2 ^ 31) z
      → (i : ℤ) × (int_from_json (value (int64 z)) ≡ ok i) × InRange (2 ^ 31) i × (i ≢ z)
  unfolding int_from_json
  int_from_json_wraps z h k = (
    to_int32 z,
    ground (arith, kind-value (int64 z)),
    to_int32-InRange z,
    λ e. k (subst (InRange (2 ^ 31)) e (to_int32-InRange z)),
  )

  -- What Boost.JSON documents of its parser: an integer that an `int64_t` holds is read as one.
  abbrev pub IsReadAsSigned : ℕ → Type 0
  IsReadAsSigned n = parse (serialize (value (uint64 n))) ≡ parsed (value (int64 (pos n)))

  -- A `uint64_t` that was sent as text, and that the parser reads as an `int64_t`, is refused as a
  -- `uint64_t` on the other side.
  pub uint64_from_json_refuses :
      (n : ℕ) (jv : Value)
      → IsReadAsSigned n
      → parse (serialize (uint64_converter.to_json n)) ≡ parsed jv
      → uint64_from_json jv ≡ throw (mismatch "期望 uint64 类型")
  unfolding uint64_from_json
  uint64_from_json_refuses n jv signed read = ground (arith, kind-value (int64 (pos n)))
