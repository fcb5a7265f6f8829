-- ===== src/Converter/RoundTrip.antt =====
-- Each conversion reads back what it writes.
use native.Mathlib.Omega.{arith}
use jsonrpc_for_cpp.Prelude.Int.{InRange, to_int32_id}
use jsonrpc_for_cpp.Results.{ok, Yields, collect_complete}
use jsonrpc_for_cpp.Json.{JsonLib, kind-value, array, bool, double, int64, string, uint64}
use jsonrpc_for_cpp.Prelude.{List, [], ◌∷◌, map, true, ◌≡◌, All, no_nul, ◌<◌, ◌^◌, c_str_id}
use jsonrpc_for_cpp.Converter.{
  Converter, Floats, bool_from_json, int64_from_json, int_from_json, string_from_json,
  uint64_from_json, vector_from_json, bool_converter, double_from_json, float_from_json,
  int64_converter, int_converter, string_converter, uint64_converter, vector_to_json,
  double_converter, float_converter, vector_converter,
}

module _ ⦃J : JsonLib⦄ where
  open J use {Value, Object, Double, kind, value}

  -- The conversion gives back every value of the C++ type.
  abbrev pub IsFaithful : {T : Type 0} → Converter T → (T → Type 0) → Type 0
  IsFaithful {T} c Fits = (t : T) → Fits t → c.from_json (c.to_json t) ≡ ok t

  -- An `int` is read back from its own JSON value.
  pub int_converter-IsFaithful : IsFaithful int_converter (InRange (2 ^ 31))
  unfolding int_from_json
  int_converter-IsFaithful z h = ground (arith, kind-value (int64 z), to_int32_id z h)

  -- An `int64_t` is read back from its own JSON value.
  pub int64_converter-IsFaithful : IsFaithful int64_converter (InRange (2 ^ 63))
  unfolding int64_from_json
  int64_converter-IsFaithful z h = ground (arith, kind-value (int64 z))

  -- A `uint64_t` is read back from its own JSON value.
  pub uint64_converter-IsFaithful : IsFaithful uint64_converter (λ n. n < 2 ^ 64)
  unfolding uint64_from_json
  uint64_converter-IsFaithful n h = ground (arith, kind-value (uint64 n))

  -- A `bool` is read back from its own JSON value.
  pub bool_converter-IsFaithful : IsFaithful bool_converter (λ b. Unit)
  unfolding bool_from_json
  bool_converter-IsFaithful b h = ground (arith, kind-value (bool b))

  -- A string without NUL is read back from its own JSON value.
  pub string_converter-IsFaithful : IsFaithful string_converter (λ s. no_nul s ≡ true)
  unfolding string_from_json
  string_converter-IsFaithful s h = ground (arith, kind-value (string s), c_str_id s h)

  module _ (F : Floats) where
    pub double_converter-IsFaithful : IsFaithful (double_converter F) (λ d. Unit)
    unfolding double_from_json
    double_converter-IsFaithful d h = ground (arith, kind-value (double d))

    pub float_converter-IsFaithful : IsFaithful (float_converter F) (λ x. F.narrow (F.widen x) ≡ x)
    unfolding float_from_json
    float_converter-IsFaithful x h = ground (arith, kind-value (double (F.widen x)), h)

  module _ {T : Type 0} (c : Converter T) (Fits : T → Type 0) (faithful : IsFaithful c Fits) where
    Yields-to_json : (xs : List T) → All Fits xs → Yields c.from_json (map c.to_json xs) xs
    Yields-to_json [] h = tt
    Yields-to_json (x ∷ xs) (h, t) = (faithful x h, Yields-to_json xs t)

    -- A vector is read back from its JSON array element by element, if the conversion of the
    -- elements gives back every element that fits, and all of them fit.
    pub vector_from_json-vector_to_json :
        (xs : List T)
        → All Fits xs
        → (vector_converter c).from_json ((vector_converter c).to_json xs) ≡ ok xs
    unfolding vector_from_json vector_to_json
    vector_from_json-vector_to_json xs h = ground (
      arith,
      kind-value (array (map c.to_json xs)),
      collect_complete c.from_json (map c.to_json xs) xs (Yields-to_json xs h),
    )
