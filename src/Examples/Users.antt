-- ===== src/Examples/Users.antt =====
-- examples/type_conversion/main.cpp: a conversion that a user of the library adds. What `at` and
-- the `as_*` accessors of Boost.JSON throw is known only as a `std::exception`.
use jsonrpc_for_cpp.Converter.{Converter, mismatch}
use jsonrpc_for_cpp.Converter.Args.{Param}
use jsonrpc_for_cpp.Examples.{Line, out}
use jsonrpc_for_cpp.Json.{
  JsonLib, fields, as_object, as_string, as_int64, text_value, int64, object, string, kind-value,
}
use jsonrpc_for_cpp.Prelude.{
  List, [], ◌∷◌, String, some, ◌≡◌, true, no_nul, c_str, c_str_id, ◌^◌, refl, arith, ℕ,
}
use jsonrpc_for_cpp.Prelude.Int.{ℤ, pos, InRange, to_int32, to_int32_id, to_string}
use jsonrpc_for_cpp.Results.{Result, ok, std_exception, ◌>>=◌, require_some}
use Prim.Native.String.{◌++◌ as append}

pub record User : Type 0 where
  pub name : String
  pub age : ℤ

module _ ⦃J : JsonLib⦄ where
  open J use {Value, Object, value, empty, insert, find, serialize}

  -- The texts of the two exceptions of the library.
  pub record Whats : Type 0 where
    pub no_key : String
    pub wrong_kind : String

  module _ (x : Whats) where
    unfoldable pub user_from_json : Value → Result User
    user_from_json jv = do
      obj ← require_some (as_object jv) (mismatch "期望 object 类型")
      name_value ← require_some (find "name" obj) (std_exception x.no_key)
      name ← require_some (as_string name_value) (std_exception x.wrong_kind)
      age_value ← require_some (find "age" obj) (std_exception x.no_key)
      age ← require_some (as_int64 age_value) (std_exception x.wrong_kind)
      ok (record { name = c_str name; age = to_int32 age })

    unfoldable pub user_to_json : User → Value
    user_to_json user = value (
        object (insert "age" (value (int64 user.age)) (insert "name" (text_value user.name) empty)))

    abbrev pub user_converter : Converter User
    user_converter = record { from_json = user_from_json; to_json = user_to_json }

    abbrev pub user_param : Param
    user_param = record { Arg = User; converter = user_converter }

    unfoldable pub users_main : Result (List Line × ℕ)
    unfolding user_from_json user_to_json
    users_main =
        let json_value = user_to_json (record { name = "Alice"; age = pos 28 }) in
        do
          parsed_user ← user_from_json json_value
          ok (
            out (append "序列化结果: " (serialize json_value))
                ∷ out (
                    append "反序列化: "
                      (append parsed_user.name (append ", age = " (to_string parsed_user.age))))
                ∷ [],
            0,
          )

    -- A user whose name has no NUL and whose age is an `int` is read back from its JSON object.
    pub user_from_json-user_to_json :
        (user : User)
        → no_nul user.name ≡ true
        → InRange (2 ^ 31) user.age
        → user_converter.from_json (user_converter.to_json user) ≡ ok user
    unfolding user_from_json user_to_json
    user_from_json-user_to_json user h k = ground (
      arith,
      kind-value (object obj),
      kind-value (string user.name),
      kind-value (int64 user.age),
      found_name,
      found_age,
      c_str_id user.name h,
      to_int32_id user.age k,
    )
      where
        obj : Object
        obj = insert "age" (value (int64 user.age)) (insert "name" (text_value user.name) empty)

        found_name : find "name" obj ≡ some (text_value user.name)
        found_name = simp fields

        found_age : find "age" obj ≡ some (value (int64 user.age))
        found_age = simp fields

    users_main-prints :
        users_main
        ≡ ok (
          out (
                append "序列化结果: "
                  (serialize (user_to_json (record { name = "Alice"; age = pos 28 }))))
              ∷ out "反序列化: Alice, age = 28"
              ∷ [],
          0,
        )
    unfolding users_main to_string
    users_main-prints =
        rw
          (user_from_json-user_to_json (record { name = "Alice"; age = pos 28 }) refl (omega arith))
          refl
