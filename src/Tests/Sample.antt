-- ===== src/Tests/Sample.antt =====
-- A JSON library for the tests: trees, a printer without escapes, and a parser that knows the
-- texts of the trees below.
mod Known
pub use Known.*
use Prim.Native.String.{◌++◌ as append}
use jsonrpc_for_cpp.Prelude.{
  ℕ, String, Bool, true, false, List, [], ◌∷◌, ◌++◌, Option, none, some, ◌≡◌, refl, ap, str_eq,
  if◌then◌else◌, arith,
}
use jsonrpc_for_cpp.Prelude.Int.{ℤ, pos, negsuc, to_string}
use jsonrpc_for_cpp.Json.{JsonLib, Kind, Parsed, parsed, failed}
use text.Mathlib.TextEquality.{eq_iff}

abbrev to_list : Trees → List Tree
to_list nil = []
to_list (cons t ts) = t ∷ to_list ts

abbrev pub of_list : List Tree → Trees
of_list [] = nil
of_list (t ∷ ts) = cons t (of_list ts)

to_list-of_list : (ts : List Tree) → to_list (of_list ts) ≡ ts
to_list-of_list [] = refl
to_list-of_list (t ∷ ts) = ap (◌∷◌ t) (to_list-of_list ts)

of_list-to_list : (ts : Trees) → of_list (to_list ts) ≡ ts
of_list-to_list nil = refl
of_list-to_list (cons t ts) = ap (cons t) (of_list-to_list ts)

abbrev tree_kind : Tree → Kind Tree Members ℕ
tree_kind null = Kind.null
tree_kind (bool b) = Kind.bool b
tree_kind (int64 z) = Kind.int64 z
tree_kind (uint64 n) = Kind.uint64 n
tree_kind (double d) = Kind.double d
tree_kind (string s) = Kind.string s
tree_kind (array ts) = Kind.array (to_list ts)
tree_kind (object ms) = Kind.object ms

abbrev tree : Kind Tree Members ℕ → Tree
tree Kind.null = null
tree (Kind.bool b) = bool b
tree (Kind.int64 z) = int64 z
tree (Kind.uint64 n) = uint64 n
tree (Kind.double d) = double d
tree (Kind.string s) = string s
tree (Kind.array ts) = array (of_list ts)
tree (Kind.object ms) = object ms

pub tree_kind-tree : (k : Kind Tree Members ℕ) → tree_kind (tree k) ≡ k
tree_kind-tree (Kind.array ts) = ap Kind.array (to_list-of_list ts)
tree_kind-tree Kind.null = refl
tree_kind-tree _ = refl

pub tree-tree_kind : (t : Tree) → tree (tree_kind t) ≡ t
tree-tree_kind (array ts) = ap array (of_list-to_list ts)
tree-tree_kind null = refl
tree-tree_kind _ = refl

abbrev find_member : String → Members → Option Tree
find_member k end = none
find_member k (member j t ms) = if str_eq j k then some t else find_member k ms

abbrev set_member : String → Tree → Members → Members
set_member k t end = member k t end
set_member k t (member j u ms) =
    if str_eq j k then member k t ms else member j u (set_member k t ms)

pub find_member-set_member :
    (k j : String) (t : Tree) (ms : Members)
    → find_member j (set_member k t ms) ≡ (if str_eq k j then some t else find_member j ms)
find_member-set_member k j t end = refl
find_member-set_member k j t (member i u ms) =
    ground (arith, eq_iff k j, eq_iff i k, eq_iff i j, find_member-set_member k j t ms)

abbrev members : Members → List (String × Tree)
members end = []
members (member k t ms) = (k, t) ∷ members ms

pub members-set_member :
    (k : String) (t : Tree) (ms : Members)
    → find_member k ms ≡ none
    → members (set_member k t ms) ≡ members ms ++ (k, t) ∷ []
members-set_member k t end h = refl
members-set_member k t (member j u ms) h = ground (arith, members-set_member k t ms)

mutual
  print : Tree → String
  print null = "null"
  print (bool true) = "true"
  print (bool false) = "false"
  print (int64 z) = to_string z
  print (uint64 n) = to_string (pos n)
  print (double d) = append (to_string (pos d)) ".0"
  print (string s) = append "\"" (append s "\"")
  print (array ts) = append "[" (print_items ts)
  print (object ms) = append "{" (print_members ms)

  print_items : Trees → String
  print_items nil = "]"
  print_items (cons t ts) = append (print t) (append "," (print_items ts))

  print_members : Members → String
  print_members end = "}"
  print_members (member k t ms) =
      append "\"" (append k (append "\":" (append (print t) (append "," (print_members ms)))))

-- The trees whose texts the parser knows.
abbrev pub known : List Tree
known =
    request_tree
    ∷ notification_tree
    ∷ success_tree
    ∷ array (cons request_tree (cons notification_tree nil))
    ∷ array (cons success_tree (cons failure_tree nil))
    ∷ array (cons success_tree nil)
    ∷ bad_batch_tree
    ∷ int64 (pos 9)
    ∷ two_numbers "divide" 10 0 1
    ∷ refusal_tree (negsuc 32601) "除数不能为 0" 1
    ∷ two_numbers "method_not_exists" 1 2 2
    ∷ refusal_tree (negsuc 32600) "方法不存在: method_not_exists" 2
    ∷ array (
        cons (two_numbers "add" 1 2 1)
          (cons (two_numbers "multiply" 3 5 2) (cons (two_numbers "subtract" 20 4 3) nil)))
    ∷ array (
        cons (number_tree (pos 3) 1)
          (cons (number_tree (pos 15) 2) (cons (number_tree (pos 16) 3) nil)))
    ∷ number_tree (pos 3) 1
    ∷ number_tree (pos 12) 2
    ∷ number_tree (pos 15) 3
    ∷ two_numbers "add" 1 2 1
    ∷ two_numbers "multiply" 3 4 2
    ∷ two_numbers "subtract" 20 5 3
    ∷ []

parse_known : List Tree → String → Parsed Tree
parse_known [] text = failed "syntax error"
parse_known (t ∷ ts) text = if str_eq (print t) text then parsed t else parse_known ts text

-- Marked for the tests to run.
unfoldable pub parse_tree : String → Parsed Tree
unfolding parse_known print
parse_tree = parse_known known

unfoldable pub print_tree : Tree → String
unfolding print
print_tree = print

instance abbrev pub sample_json : JsonLib
sample_json = record {
  Value = Tree;
  Object = Members;
  Double = ℕ;
  kind = tree_kind;
  value = tree;
  kind-value = tree_kind-tree;
  value-kind = tree-tree_kind;
  empty = end;
  find = find_member;
  insert = set_member;
  find-empty = λ k. refl;
  find-insert = find_member-set_member;
  entries = members;
  entries-empty = refl;
  entries-insert = members-set_member;
  parse = parse_tree;
  serialize = print_tree;
}
