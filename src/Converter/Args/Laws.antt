-- ===== src/Converter/Args/Laws.antt =====
-- What `extract_args` gives back, and what it refuses.
use jsonrpc_for_cpp.IndexSequence.{elements_at-make_index_sequence, length-make_index_sequence}
use jsonrpc_for_cpp.Prelude.{◌∷◌, [], ◌≡◌, ap, refl, some, suc, ◌⊎◌, true}
use native.Mathlib.Omega.{arith}
use jsonrpc_for_cpp.Errors.ErrorCode
use jsonrpc_for_cpp.Results.{OnlyCode, ok}
use jsonrpc_for_cpp.Errors.{error_of}
use jsonrpc_for_cpp.Prelude.{List, All, length, ◌∷◌, Option-cases, inl, inr}
use jsonrpc_for_cpp.Json.{JsonLib, array, as_array, kind-value, is_null}
use jsonrpc_for_cpp.Converter.Args.{Param, convert_args, extract_args, pack_args, Tuple}

module _ ⦃J : JsonLib⦄ where
  open J use {Value, kind, value}

  -- Each argument is given back by its conversion.
  abbrev pub AreFaithful : (ps : List Param) → Tuple ps → Type 0
  AreFaithful [] args = Unit
  AreFaithful (p ∷ ps) (arg, args) =
      (p.converter.from_json (p.converter.to_json arg) ≡ ok arg) × AreFaithful ps args

  length-pack_args : (ps : List Param) (args : Tuple ps) → length (pack_args ps args) ≡ length ps
  unfolding pack_args
  length-pack_args [] args = refl
  length-pack_args (p ∷ ps) (arg, args) = ap suc (length-pack_args ps args)

  convert_args-pack_args :
      (ps : List Param) (args : Tuple ps)
      → AreFaithful ps args
      → convert_args ps (pack_args ps args) ≡ ok args
  unfolding convert_args pack_args
  convert_args-pack_args [] args h = refl
  convert_args-pack_args (p ∷ ps) (arg, args) (h, t) = rw (h, convert_args-pack_args ps args t)

  -- The server extracts exactly the arguments that the client packed, if the conversion of each
  -- gives it back.
  pub extract_args-pack_args :
      (ps : List Param) (args : Tuple ps)
      → AreFaithful ps args
      → extract_args ps (value (array (pack_args ps args))) ≡ ok args
  unfolding extract_args
  extract_args-pack_args [] args h = unfold pack_args in ground (arith, kind-value (array []))
  extract_args-pack_args (p ∷ ps) args h = ground (
    arith,
    kind-value (array (pack_args (p ∷ ps) args)),
    length-pack_args (p ∷ ps) args,
    convert_args-pack_args (p ∷ ps) args h,
    elements_at-make_index_sequence (pack_args (p ∷ ps) args) (length (p ∷ ps)),
    length-make_index_sequence (length (p ∷ ps)),
  )

  -- Arguments come out only of an array with one element for each parameter; a function without
  -- parameters also takes null.
  pub extract_args_shape :
      (ps : List Param) (params : Value) (args : Tuple ps)
      → extract_args ps params ≡ ok args
      → ((arr : List Value) × (as_array params ≡ some arr) × (length arr ≡ length ps))
        ⊎ ((ps ≡ []) × (is_null params ≡ true))
  unfolding extract_args
  extract_args_shape [] params args h = elim (Option-cases (as_array params)) [
    | inl none_found ↦ inr (refl, ground arith)
    | inr ([], found) ↦ inl ([], found, refl)
    | inr (v ∷ vs, found) ↦ ground arith
  ]
  extract_args_shape (p ∷ ps) params args h = elim (Option-cases (as_array params)) [
    | inl none_found ↦ ground arith
    | inr (arr, found) ↦
        inl (arr, found, ground (arith, length-make_index_sequence (length (p ∷ ps))))
  ]

  convert_args-OnlyCode :
      (ps : List Param) (arr : List Value)
      → All (λ p. (v : Value) → OnlyCode ErrorCode.invalid_params (p.converter.from_json v)) ps
      → length arr ≡ length ps
      → OnlyCode ErrorCode.invalid_params (convert_args ps arr)
  unfolding convert_args
  convert_args-OnlyCode [] arr h e = tt
  convert_args-OnlyCode (p ∷ ps) [] h e = absurd (omega arith)
  convert_args-OnlyCode (p ∷ ps) (v ∷ vs) (h, t) e =
      ground (arith, h v, convert_args-OnlyCode ps vs t (omega arith))

  -- A refusal is an InvalidParams, if the conversions of the arguments give no other.
  pub extract_args-OnlyCode :
      (ps : List Param) (params : Value)
      → All (λ p. (v : Value) → OnlyCode ErrorCode.invalid_params (p.converter.from_json v)) ps
      → OnlyCode ErrorCode.invalid_params (extract_args ps params)
  unfolding extract_args error_of
  extract_args-OnlyCode [] params h = ground arith
  extract_args-OnlyCode (p ∷ ps) params h = elim (Option-cases (as_array params)) [
    | inl none_found ↦ ground arith
    | inr (arr, found) ↦ ground (
      arith,
      convert_args-OnlyCode (p ∷ ps) arr h,
      elements_at-make_index_sequence arr (length (p ∷ ps)),
      length-make_index_sequence (length (p ∷ ps)),
    )
  ]
