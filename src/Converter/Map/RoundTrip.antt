-- ===== src/Converter/Map/RoundTrip.antt =====
-- That a map is read back from its JSON object.
use native.Mathlib.Omega.{arith}
use text.Mathlib.TextEquality.{eq_iff}
use mathlib.Core.List.{append_assoc, append-nil}
use jsonrpc_for_cpp.Json.{JsonLib, object, kind-value, find-empty, find-insert}
use jsonrpc_for_cpp.Prelude.{
  List, [], ◌∷◌, ◌++◌, String, none, true, false, str_eq, str_ltb, str_ltb_asym, All, map, ◌≡◌,
  refl, ap, ◌∙◌, sym,
}
use jsonrpc_for_cpp.Results.{ok}
use jsonrpc_for_cpp.Converter.{Converter}
use jsonrpc_for_cpp.Converter.Map.{
  assign_entry, IsAscending, read_entries, map_from_json, put_entries, map_to_json, map_converter,
}

str_eq-str_ltb : (s t : String) → str_ltb s t ≡ true → (str_eq s t ≡ false) × (str_eq t s ≡ false)
str_eq-str_ltb s t h = ground (arith, eq_iff s t, eq_iff t s, str_ltb_asym s t, str_ltb_asym s s)

module _ {T : Type 0} where
  -- A key above all others goes last.
  assign_last :
      (k : String) (t : T) (m : List (String × T))
      → All (λ e. str_ltb e.0 k ≡ true) m
      → assign_entry k t m ≡ m ++ (k, t) ∷ []
  unfolding assign_entry
  assign_last k t [] h = refl
  assign_last k t ((j, u) ∷ m) (h, hs) =
      ground (arith, assign_last k t m hs, str_eq-str_ltb j k h, str_ltb_asym j k h)

  All-concat :
      (k : String) (e : String × T) (m : List (String × T))
      → All (λ f. str_ltb f.0 k ≡ true) m
      → str_ltb e.0 k ≡ true
      → All (λ f. str_ltb f.0 k ≡ true) (m ++ e ∷ [])
  All-concat k e [] h l = (l, tt)
  All-concat k e (x ∷ m) (h, hs) l = (h, All-concat k e m hs l)

module _ ⦃J : JsonLib⦄ where
  open J use {Value, Object, find, entries, insert, empty}

  module _ {T : Type 0} (element : Converter T) where
    abbrev encoded : List (String × T) → List (String × Value)
    encoded = map (λ e. (e.0, element.to_json e.1))

    -- No entry's key is in the object.
    abbrev AreNew : List (String × T) → Object → Type 0
    AreNew m obj = All (λ e. find e.0 obj ≡ none) m

    AreNew-insert :
        (k : String) (v : Value) (m : List (String × T)) (obj : Object)
        → All (λ f. str_ltb k f.0 ≡ true) m
        → AreNew m obj
        → AreNew m (insert k v obj)
    AreNew-insert k v [] obj h new = tt
    AreNew-insert k v (e ∷ m) obj (h, hs) (new, news) = (
      ground (arith, find-insert k e.0 v obj, str_eq-str_ltb k e.0 h),
      AreNew-insert k v m obj hs news,
    )

    entries-put_entries :
        (m : List (String × T)) (obj : Object)
        → IsAscending m
        → AreNew m obj
        → entries (put_entries element m obj) ≡ entries obj ++ encoded m
    unfolding put_entries
    entries-put_entries [] obj a new = sym (append-nil (entries obj))
    entries-put_entries (e ∷ m) obj (above, a) (new, news) =
        let v = element.to_json e.1 in
        entries-put_entries m (insert e.0 v obj) a (AreNew-insert e.0 v m obj above news)
        ∙ ap (λ z. z ++ encoded m) (J.entries-insert e.0 v obj new)
        ∙ append_assoc (entries obj) ((e.0, v) ∷ []) (encoded m)

    AreNew-empty : (m : List (String × T)) → AreNew m empty
    AreNew-empty [] = tt
    AreNew-empty (e ∷ m) = (find-empty e.0, AreNew-empty m)

    -- Every key of the first list is below every key of the second.
    abbrev AreBelow : List (String × T) → List (String × T) → Type 0
    AreBelow read m = All (λ e. All (λ f. str_ltb f.0 e.0 ≡ true) read) m

    AreBelow-concat :
        (read m : List (String × T)) (e : String × T)
        → AreBelow read m
        → All (λ f. str_ltb e.0 f.0 ≡ true) m
        → AreBelow (read ++ e ∷ []) m
    AreBelow-concat read [] e h l = tt
    AreBelow-concat read (f ∷ m) e (h, hs) (l, ls) =
        (All-concat f.0 e read h l, AreBelow-concat read m e hs ls)

    read_entries-encoded :
        (read m : List (String × T))
        → IsAscending m
        → AreBelow read m
        → All (λ e. element.from_json (element.to_json e.1) ≡ ok e.1) m
        → read_entries element (encoded m) read ≡ ok (read ++ m)
    unfolding read_entries
    read_entries-encoded read [] a b f = ap ok (sym (append-nil read))
    read_entries-encoded read (e ∷ m) (above, a) (b, bs) (f, fs) =
        rw (f, assign_last e.0 e.1 read b)
          (read_entries-encoded (read ++ e ∷ []) m a (AreBelow-concat read m e bs above) fs
            ∙ ap ok (append_assoc read (e ∷ []) m))

    AreBelow-nil : (m : List (String × T)) → AreBelow [] m
    AreBelow-nil [] = tt
    AreBelow-nil (e ∷ m) = (tt, AreBelow-nil m)

    -- A map, whose keys ascend, is read back from its JSON object, if the conversion of the values
    -- gives back each of them.
    pub map_from_json-map_to_json :
        (m : List (String × T))
        → IsAscending m
        → All (λ e. element.from_json (element.to_json e.1) ≡ ok e.1) m
        → (map_converter element).from_json ((map_converter element).to_json m) ≡ ok m
    unfolding map_from_json map_to_json
    map_from_json-map_to_json m a f = ground (
      arith,
      kind-value (object (put_entries element m empty)),
      entries-put_entries m empty a (AreNew-empty m),
      J.entries-empty,
      read_entries-encoded [] m a (AreBelow-nil m) f,
    )
