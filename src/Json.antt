-- ===== src/Json.antt =====
-- What the program relies on of Boost.JSON, as an interface: the library is not part of the
-- repository. `kind` stands for `kind()`, the `is_*` tests and the `as_*` accessors at once,
-- `value` for the constructors; `find` for `contains` and `at`, `insert` for
-- `obj[k] = v`, which puts a new key last, and `entries` for the iteration over an object.
use jsonrpc_for_cpp.Prelude.{
  ◌⊎◌, inl, inr, ℕ, Bool, true, false, String, List, [], ◌∷◌, ◌++◌, Option, none, some, ◌≡◌, refl,
  if◌then◌else◌, str_eq,
}
use jsonrpc_for_cpp.Prelude.Int.{ℤ}

-- The alternatives of `boost::json::kind`, each with its content.
pub data Kind (V O D : Type 0) : Type 0 where
  null : Kind V O D
  bool : Bool → Kind V O D
  int64 : ℤ → Kind V O D
  uint64 : ℕ → Kind V O D
  double : D → Kind V O D
  string : String → Kind V O D
  array : List V → Kind V O D
  object : O → Kind V O D

-- `boost::json::parse`: a value, or an exception with its `what()`.
pub data Parsed (V : Type 0) : Type 0 where
  parsed : V → Parsed V
  failed : String → Parsed V

pub Parsed-cases :
    {V : Type 0} (p : Parsed V) → ((v : V) × (p ≡ parsed v)) ⊎ ((what : String) × (p ≡ failed what))
Parsed-cases (parsed v) = inl (v, refl)
Parsed-cases (failed what) = inr (what, refl)

pub record JsonLib : Type 1 where
  pub Value : Type 0
  pub Object : Type 0
  pub Double : Type 0
  pub kind : Value → Kind Value Object Double
  pub value : Kind Value Object Double → Value
  pub kind-value : (k : Kind Value Object Double) → kind (value k) ≡ k
  pub value-kind : (v : Value) → value (kind v) ≡ v
  pub empty : Object
  pub find : String → Object → Option Value
  pub insert : String → Value → Object → Object
  pub find-empty : (k : String) → find k empty ≡ none
  pub find-insert :
      (k j : String) (v : Value) (o : Object)
      → find j (insert k v o) ≡ (if str_eq k j then some v else find j o)
  pub entries : Object → List (String × Value)
  pub entries-empty : entries empty ≡ []
  pub entries-insert :
      (k : String) (v : Value) (o : Object)
      → find k o ≡ none
      → entries (insert k v o) ≡ entries o ++ (k, v) ∷ []
  pub parse : String → Parsed Value
  pub serialize : Value → String

-- The tests and accessors that the code calls, read off the kind.
module _ ⦃J : JsonLib⦄ where
  open J use {Value, Object, kind, value, find, parse, serialize}

  abbrev pub null_value : Value
  null_value = value null

  abbrev pub text_value : String → Value
  text_value s = value (string s)

  abbrev pub is_null : Value → Bool
  is_null v = elim (kind v) [ null ↦ true | _ ↦ false ]

  abbrev pub is_string : Value → Bool
  is_string v = elim (kind v) [ string s ↦ true | _ ↦ false ]

  abbrev pub is_number : Value → Bool
  is_number v = elim (kind v) [ int64 z ↦ true | uint64 n ↦ true | double d ↦ true | _ ↦ false ]

  abbrev pub is_array : Value → Bool
  is_array v = elim (kind v) [ array vs ↦ true | _ ↦ false ]

  abbrev pub is_object : Value → Bool
  is_object v = elim (kind v) [ object o ↦ true | _ ↦ false ]

  abbrev pub contains : String → Object → Bool
  contains k o = elim (find k o) [ none ↦ false | some v ↦ true ]

  -- `is_string()` and then `as_string()`; likewise below.
  abbrev pub as_string : Value → Option String
  as_string v = elim (kind v) [ string s ↦ some s | _ ↦ none ]

  abbrev pub as_int64 : Value → Option ℤ
  as_int64 v = elim (kind v) [ int64 z ↦ some z | _ ↦ none ]

  abbrev pub as_array : Value → Option (List Value)
  as_array v = elim (kind v) [ array vs ↦ some vs | _ ↦ none ]

  abbrev pub as_object : Value → Option Object
  as_object v = elim (kind v) [ object o ↦ some o | _ ↦ none ]

  -- `contains(k) && at(k).is_string()`, and the string.
  abbrev pub string_at : String → Object → Option String
  string_at k o = elim (find k o) [ none ↦ none | some v ↦ as_string v ]

  abbrev pub int64_at : String → Object → Option ℤ
  int64_at k o = elim (find k o) [ none ↦ none | some v ↦ as_int64 v ]

  abbrev pub or_null : Option Value → Value
  or_null none = null_value
  or_null (some v) = v

  -- The text of this value is read back as the same value.
  abbrev pub IsStable : Value → Type 0
  IsStable v = parse (serialize v) ≡ parsed v

  pub find-empty : (k : String) → find k J.empty ≡ none
  find-empty = J.find-empty

  pub find-insert :
      (k j : String) (v : Value) (o : Object)
      → find j (J.insert k v o) ≡ (if str_eq k j then some v else find j o)
  find-insert = J.find-insert

  pub kind-value : (k : Kind Value Object J.Double) → kind (value k) ≡ k
  kind-value = J.kind-value

  pub find-if :
      (k : String) (b : Bool) (o p : Object)
      → find k (if b then o else p) ≡ (if b then find k o else find k p)
  find-if k true o p = refl
  find-if k false o p = refl

pub if_same {ℓ} : {A : Type ℓ} (b : Bool) (a : A) → (if b then a else a) ≡ a
if_same true a = refl
if_same false a = refl

-- What an object that was built by insertions holds under each key.
pub ruleset fields = (find-if, find-insert, find-empty, kind-value, if_same)
