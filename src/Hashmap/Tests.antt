-- ===== src/Hashmap/Tests.antt =====
-- The host map on a few domains, and its theorems at a concrete bucket.
mod Growth
use simp_dserver.Prelude.{
  ℕ, ◌+◌, ◌==◌, ltb, if◌then◌else◌, ◌<◌, ◌≡◌, ◌↔◌, refl, inl, inr, Bool, true, false, Option, some,
  none, List, [], ◌∷◌, arith,
}
use simp_dserver.Hashmap.{init, new_cell, inside_insert, inside_search}
use simp_dserver.Hashmap.Duplicate.{inside_insert-duplicate}
use simp_dserver.Hashmap.Memory.{
  null, red, black, Cell, Heap, Cmd, pure, ◌>>=◌, ◌>>◌, load, store, set_parent, set_color,
  set_left, set_right, get_root, set_root, is_red,
}
use simp_dserver.Hashmap.Rbtree.{insert_color}
use simp_dserver.Hashmap.Search.{Answers, inside_search-Answers}
use simp_dserver.Hashmap.Text.{less, equal, greater, strcmp, hash, array_size}
use simp_dserver.Hashmap.Text.Hash.{hash-lt}
use simp_dserver.Hashmap.Text.Order.{IsDomain, strcmp_order}
use simp_dserver.Hashmap.Walk.{first, last, following, preceding, replace_node}
use simp_dserver.Hashmap.Walk.Ends.{first_node, last_node, ends_lem}
use simp_dserver.Hashmap.Tree.{Tree, leaf, node, Rep, leaf_rep, node_rep, IsSearchTree}

abbrev named : ℕ → Option Cell
named p =
    if p == 0
    then none
    else if ltb p 6
    then some (new_cell ((96 + p) ∷ []) 1 (10 + p))
    else if p == 6
    then some (new_cell (b'c' ∷ []) 1 16)
    else none

abbrev start : Heap
start = init (record { cells = named; roots = λ h. 7 })

-- Five domains in ascending order, then one of them again.
abbrev session : Cmd (List ℕ × List Bool)
session = do
  one ← inside_insert 9 0 1
  two ← inside_insert 9 0 2
  three ← inside_insert 9 0 3
  four ← inside_insert 9 0 4
  five ← inside_insert 9 0 5
  again ← inside_insert 9 0 6
  a ← inside_search 9 0 (b'a' ∷ [])
  c ← inside_search 9 0 (b'c' ∷ [])
  e ← inside_search 9 0 (b'e' ∷ [])
  f ← inside_search 9 0 (b'f' ∷ [])
  top ← get_root 0
  pure (top ∷ a ∷ c ∷ e ∷ f ∷ [], one ∷ two ∷ three ∷ four ∷ five ∷ again ∷ [])

answers_of : Option ((List ℕ × List Bool) × Heap) → Option (List ℕ × List Bool)
answers_of none = none
answers_of (some (xs, m)) = some xs

session_test :
    answers_of (session start)
    ≡ some (2 ∷ 11 ∷ 13 ∷ 15 ∷ 0 ∷ [], true ∷ true ∷ true ∷ true ∷ true ∷ false ∷ [])
unfolding init new_cell inside_insert inside_search answers_of strcmp insert_color load store
    set_parent set_color set_left set_right get_root set_root is_red
session_test = refl

abbrev cell_a : Cell
cell_a = record {
  parent = 2;
  color = red;
  right = null;
  left = null;
  domain_len = 1;
  domain = b'a' ∷ [];
  ipv4 = 11;
}

abbrev cell_b : Cell
cell_b = record {
  parent = null;
  color = black;
  right = 1;
  left = 3;
  domain_len = 1;
  domain = b'b' ∷ [];
  ipv4 = 12;
}

abbrev cell_c : Cell
cell_c = record {
  parent = 2;
  color = red;
  right = null;
  left = null;
  domain_len = 1;
  domain = b'c' ∷ [];
  ipv4 = 13;
}

-- A bucket with three nodes, and the node 6, which repeats a domain.
abbrev bucket : Heap
bucket = record {
  cells = λ p.
      if p == 1
      then some cell_a
      else if p == 2
      then some cell_b
      else if p == 3
      then some cell_c
      else named p;
  roots = λ h. 2;
}

abbrev tree_a : Tree
tree_a = node 1 red (b'a' ∷ []) 11 leaf leaf

abbrev tree_c : Tree
tree_c = node 3 red (b'c' ∷ []) 13 leaf leaf

abbrev tree_b : Tree
tree_b = node 2 black (b'b' ∷ []) 12 tree_c tree_a

bucket-Rep : Rep (bucket.cells) null 2 tree_b
bucket-Rep =
    node_rep cell_b (omega arith) refl refl
      (node_rep cell_c (omega arith) refl refl leaf_rep leaf_rep)
      (node_rep cell_a (omega arith) refl refl leaf_rep leaf_rep)

letter : (c : ℕ) → 0 < c → c < 256 → IsDomain (c ∷ [])
letter c low high = ((low, high, tt), omega arith)

tree_ordered : IsSearchTree tree_b
unfolding strcmp
tree_ordered = (
  letter b'b' (omega arith) (omega arith),
  (refl, tt, tt),
  (refl, tt, tt),
  (letter b'c' (omega arith) (omega arith), tt, tt, tt, tt),
  (letter b'a' (omega arith) (omega arith), tt, tt, tt, tt),
)

abbrev name_a : List ℕ
name_a = b'a' ∷ []

abbrev name_b : List ℕ
name_b = b'b' ∷ []

abbrev name_c : List ℕ
name_c = b'c' ∷ []

strcmp_order_example :
    ((strcmp (some name_c) (some name_b) ≡ equal) ↔ (name_c ≡ name_b))
    × ((strcmp (some name_c) (some name_b) ≡ greater) ↔ (strcmp (some name_b) (some name_c) ≡ less))
    × (strcmp (some name_c) (some name_b) ≡ greater
        → strcmp (some name_b) (some name_a) ≡ greater
        → strcmp (some name_c) (some name_a) ≡ greater)
strcmp_order_example =
    strcmp_order name_c name_b name_a (letter b'c' (omega arith) (omega arith))
      (letter b'b' (omega arith) (omega arith)) (letter b'a' (omega arith) (omega arith))

inside_insert-duplicate_example : inside_insert 3 0 6 bucket ≡ some (false, bucket)
unfolding new_cell
inside_insert-duplicate_example =
    inside_insert-duplicate 3 0 6 (new_cell (b'c' ∷ []) 1 16) 13 bucket tree_b (omega arith) refl
      bucket-Rep tree_ordered (letter b'c' (omega arith) (omega arith)) (omega arith)
      (inr (inl (inl (refl, refl))))

ends_lem_example :
    (first 3 0 bucket ≡ some (first_node tree_b null, bucket))
    × (last 3 0 bucket ≡ some (last_node tree_b null, bucket))
ends_lem_example = ends_lem 3 0 bucket tree_b bucket-Rep (omega arith)

-- Replacing the root by the node 6, and the neighbours of the root.
abbrev walk : Cmd (List ℕ)
walk = do
  after ← following 3 2
  before ← preceding 3 2
  beyond ← following 3 1
  replace_node 2 6 0
  top ← get_root 0
  left ← load 3
  pure (after ∷ before ∷ beyond ∷ top ∷ left.parent ∷ [])

list_of : Option (List ℕ × Heap) → Option (List ℕ)
list_of none = none
list_of (some (xs, m)) = some xs

walk_test : list_of (walk bucket) ≡ some (1 ∷ 3 ∷ 0 ∷ 6 ∷ 6 ∷ [])
unfolding list_of new_cell following preceding replace_node get_root load store set_parent set_left
    set_right set_root
walk_test = refl
