-- ===== src/Tests/Sample/Known.antt =====
-- JSON trees, and those that the tests read and write.
use jsonrpc_for_cpp.Prelude.{ℕ, String, Bool}
use jsonrpc_for_cpp.Prelude.Int.{ℤ, pos, negsuc}

mutual
  pub data Tree : Type 0 where
    null : Tree
    bool : Bool → Tree
    int64 : ℤ → Tree
    uint64 : ℕ → Tree
    double : ℕ → Tree
    string : String → Tree
    array : Trees → Tree
    object : Members → Tree

  pub data Trees : Type 0 where
    nil : Trees
    cons : Tree → Trees → Trees

  pub data Members : Type 0 where
    end : Members
    member : String → Tree → Members → Members

abbrev pub request_tree : Tree
request_tree = object (
    member "jsonrpc" (string "2.0") (
      member "method" (string "add") (
        member "params" (array (cons (int64 (pos 2)) (cons (int64 (pos 3)) nil)))
          (member "id" (int64 (pos 1)) end))))

abbrev pub notification_tree : Tree
notification_tree = object (member "jsonrpc" (string "2.0") (member "method" (string "log") end))

abbrev pub success_tree : Tree
success_tree = object (
    member "jsonrpc" (string "2.0")
      (member "result" (int64 (pos 5)) (member "id" (int64 (pos 1)) end)))

abbrev pub failure_tree : Tree
failure_tree = object (
    member "jsonrpc" (string "2.0") (
      member "error"
        (object
          (member "code" (int64 (negsuc 32600)) (member "message" (string "no such method") end)))
        (member "id" (int64 (pos 2)) end)))

abbrev pub bad_batch_tree : Tree
bad_batch_tree = array (cons request_tree (cons (int64 (pos 7)) nil))

-- The requests and responses of the example programs.
abbrev pub two_numbers : String → ℕ → ℕ → ℕ → Tree
two_numbers method a b id = object (
    member "jsonrpc" (string "2.0") (
      member "method" (string method) (
        member "params" (array (cons (int64 (pos a)) (cons (int64 (pos b)) nil)))
          (member "id" (int64 (pos id)) end))))

abbrev pub number_tree : ℤ → ℕ → Tree
number_tree v id =
    object (
      member "jsonrpc" (string "2.0")
        (member "result" (int64 v) (member "id" (int64 (pos id)) end)))

abbrev pub refusal_tree : ℤ → String → ℕ → Tree
refusal_tree code message id = object (
    member "jsonrpc" (string "2.0") (
      member "error" (object (member "code" (int64 code) (member "message" (string message) end)))
        (member "id" (int64 (pos id)) end)))
