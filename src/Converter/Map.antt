-- ===== src/Converter/Map.antt =====
-- `json_converter<std::map<std::string, T>>`. A map is the list of its entries in ascending order
-- of their keys, the order in which C++ iterates over it.
pub mod RoundTrip
use jsonrpc_for_cpp.Json.{JsonLib, as_object, object}
use jsonrpc_for_cpp.Prelude.{
  List, [], ◌∷◌, String, Option, Bool, true, str_eq, str_ltb, if◌then◌else◌, All, ◌≡◌,
}
use jsonrpc_for_cpp.Results.{Result, ok, require_some, ◌>>=◌}
use jsonrpc_for_cpp.Converter.{Converter, mismatch}

module _ {T : Type 0} where
  -- `result[key] = value`
  unfoldable pub assign_entry : String → T → List (String × T) → List (String × T)
  assign_entry k t [] = (k, t) ∷ []
  assign_entry k t ((j, u) ∷ m) =
      let rest = assign_entry k t m in
      if str_eq k j then (k, t) ∷ m else if str_ltb k j then (k, t) ∷ (j, u) ∷ m else (j, u) ∷ rest

  -- The keys ascend.
  abbrev pub IsAscending : List (String × T) → Type 0
  IsAscending [] = Unit
  IsAscending (e ∷ m) = All (λ f. str_ltb e.0 f.0 ≡ true) m × IsAscending m

module _ ⦃J : JsonLib⦄ where
  open J use {Value, Object, value, empty, insert, entries}

  module _ {T : Type 0} (element : Converter T) where
    -- The loop over the members of the object.
    unfoldable pub read_entries :
        List (String × Value) → List (String × T) → Result (List (String × T))
    unfolding assign_entry
    read_entries [] m = ok m
    read_entries ((k, v) ∷ es) m = do t ← element.from_json v; read_entries es (assign_entry k t m)

    unfoldable pub map_from_json : Value → Result (List (String × T))
    unfolding read_entries
    map_from_json jv = do
      obj ← require_some (as_object jv) (mismatch "期望 object 类型")
      read_entries (entries obj) []

    -- The loop over the entries of the map.
    unfoldable pub put_entries : List (String × T) → Object → Object
    put_entries [] obj = obj
    put_entries ((k, t) ∷ m) obj = put_entries m (insert k (element.to_json t) obj)

    unfoldable pub map_to_json : List (String × T) → Value
    unfolding put_entries
    map_to_json m = value (object (put_entries m empty))

    abbrev pub map_converter : Converter (List (String × T))
    map_converter = record { from_json = map_from_json; to_json = map_to_json }
