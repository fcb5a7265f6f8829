-- ===== src/Converter/CString.antt =====
-- `json_converter<const char*>::from_json`, which keeps the text in a `static thread_local` string
-- and returns a pointer into it. To assign a string ends the validity of the pointers into it: a
-- pointer is the number of the assignment that it was taken after.
use native.Mathlib.Omega.{arith}
use jsonrpc_for_cpp.Converter.{string_from_json}
use jsonrpc_for_cpp.Json.{JsonLib}
use jsonrpc_for_cpp.Prelude.{ℕ, ◌+◌, ◌==◌, String, Option, none, some, if◌then◌else◌, ◌≡◌, c_str}
use jsonrpc_for_cpp.Results.{Result, ok, throw}

pub record Storage : Type 0 where
  pub text : String
  pub assignments : ℕ

-- What a pointer into the storage points to, if it is still valid.
abbrev pub read_pointer : ℕ → Storage → Option String
read_pointer pointer s = if pointer == s.assignments then some (c_str s.text) else none

module _ ⦃J : JsonLib⦄ where
  open J use {Value}

  unfoldable pub c_string_from_json : Value → Storage → Result ℕ × Storage
  c_string_from_json jv s = elim (string_from_json jv) [
    | ok text ↦ (ok (s.assignments + 1), record { text = text; assignments = s.assignments + 1 })
    | throw x ↦ (throw x, s)
  ]

  -- The arguments of a function of two `const char*` parameters, one converted after the other.
  unfoldable pub two_c_strings : Value → Value → Storage → (Result ℕ × Result ℕ) × Storage
  unfolding c_string_from_json
  two_c_strings first second s =
      let (p, t) = c_string_from_json first s in
      let (q, u) = c_string_from_json second t in ((p, q), u)

  -- When both arguments of a function of two `const char*` parameters have been converted, the
  -- pointer that was taken first is no longer valid; only the second points to its text.
  pub two_c_strings_dangle :
      (first second : Value) (a b : String) (s : Storage)
      → string_from_json first ≡ ok a
      → string_from_json second ≡ ok b
      → (p : ℕ) × (q : ℕ) × (t : Storage) × (two_c_strings first second s ≡ ((ok p, ok q), t))
        × (read_pointer p t ≡ none)
        × (read_pointer q t ≡ some (c_str b))
  unfolding two_c_strings c_string_from_json
  two_c_strings_dangle first second a b s h k = (
    s.assignments + 1,
    s.assignments + 1 + 1,
    record { text = b; assignments = s.assignments + 1 + 1 },
    ground arith,
    ground arith,
    ground arith,
  )
