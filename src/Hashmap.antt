-- ===== src/Hashmap.antt =====
-- net_hashmap/net_hashmap_core.{h,c}: domains and their addresses, in 1024 red-black trees. The
-- locks (one for each tree) make every operation on a tree atomic; they are not modelled.
pub mod Attach
pub mod Balanced
pub mod Descent
pub mod Duplicate
pub mod Erase
pub mod Height
pub mod Insert
pub mod Memory
pub mod Rbtree
pub mod Search
pub mod Sorted
pub mod Table
mod Tests
pub mod Text
pub mod Tree
pub mod Walk
pub mod Zipper
use simp_dserver.Prelude.{
  ℕ, zero, suc, ◌%◌, ◌++◌, length, Bool, true, false, Option, none, some, List, [], ◌∷◌, leb, ◌==◌,
  if◌then◌else◌,
}
use simp_dserver.Hashmap.Memory.{
  Ptr, null, Color, red, Cell, Heap, Cmd, pure, fault, ◌>>=◌, ◌>>◌, load, store, get_root, set_root,
  set_left, set_right,
}
use simp_dserver.Hashmap.Rbtree.{insert_color}
use simp_dserver.Hashmap.Text.{Sign, less, equal, greater, strcmp, hash, domain_len}

-- `init`: every tree is empty.
unfoldable pub init : Heap → Heap
init m = record m { roots = λ h. null }

-- Where `tmp` points: to the root, or to the left or right link of a node.
pub data Link : Type 0 where
  root_link : Link
  left_link : Ptr → Link
  right_link : Ptr → Link

-- What the descent ends with: a node with the same domain, or the place of an empty link.
pub data Place : Type 0 where
  found : Ptr → Place
  vacant : (parent : Ptr) → Link → Place

-- The `while (*tmp)` loop of `inside_insert`: `at` is `*tmp`.
pub descend : ℕ → List ℕ → (at parent : Ptr) → Link → Cmd Place
descend zero domain at parent link = fault
descend (suc fuel) domain at parent link = if at == null then pure (vacant parent link) else do
  c ← load at
  elim (strcmp (some domain) (some (c.domain))) [
    | greater ↦ descend fuel domain c.left at (left_link at)
    | less ↦ descend fuel domain c.right at (right_link at)
    | equal ↦ pure (found at)
  ]

-- `rb_link_node`
pub link_node : Ptr → Ptr → Link → ℕ → Cmd (Unit {0})
link_node new parent link h = do
  c ← load new
  store new (record c { parent = parent; color = red; right = null; left = null })
  elim link [
    | root_link ↦ set_root h new
    | left_link p ↦ set_left p new
    | right_link p ↦ set_right p new
  ]

-- `inside_insert`: the result is true for 0, false for -1.
pub inside_insert : ℕ → ℕ → Ptr → Cmd Bool
unfolding descend link_node
inside_insert fuel h new = do
  n ← load new
  top ← get_root h
  place ← descend fuel (n.domain) top null root_link
  elim place [
    | found p ↦ pure false
    | vacant parent link ↦ (do link_node new parent link h; insert_color fuel new h; pure true)
  ]

-- What `strncpy(dst, src, n)` leaves as a string in a zeroed array: at most `n` bytes, up to the
-- first zero.
pub copy_string : ℕ → List ℕ → List ℕ
copy_string zero src = []
copy_string (suc n) [] = []
copy_string (suc n) (c ∷ src) = if c == 0 then [] else c ∷ copy_string n src

-- What the comparison reads of the node: a domain that fills the array has no terminator, and the
-- byte behind it, the 513th and the last that is compared, is the low byte of `ipv4`.
pub readable : List ℕ → ℕ → List ℕ
readable text ipv4 = if length text == domain_len then text ++ (ipv4 % 256 ∷ []) else text

-- The node before it is linked.
unfoldable pub new_cell : List ℕ → ℕ → ℕ → Cell
unfolding copy_string readable
new_cell domain len ipv4 = record {
  parent = null;
  color = red;
  right = null;
  left = null;
  domain_len = len;
  domain = readable (copy_string len domain) ipv4;
  ipv4 = ipv4;
}

-- `net_hashmap_core_module_insert`. `fresh` is what `malloc` returns; `strncpy` writes `len` bytes,
-- past the array if that is more than its size. A node that is not linked is not freed.
unfoldable pub insert : ℕ → Ptr → List ℕ → ℕ → ℕ → Cmd Bool
unfolding inside_insert new_cell
insert fuel fresh domain len ipv4 =
    if fresh == null
    then pure false
    else if leb len domain_len
    then (do
      store fresh (new_cell domain len ipv4)
      elim (hash domain len) [ none ↦ fault | some h ↦ inside_insert fuel h fresh ])
    else fault

-- The `while` loop of `inside_search`.
pub search_loop : ℕ → List ℕ → Ptr → Cmd ℕ
search_loop zero domain at = fault
search_loop (suc fuel) domain at = if at == null then pure 0 else do
  c ← load at
  elim (strcmp (some domain) (some (c.domain))) [
    | greater ↦ search_loop fuel domain c.left
    | less ↦ search_loop fuel domain c.right
    | equal ↦ pure c.ipv4
  ]

pub inside_search : ℕ → ℕ → List ℕ → Cmd ℕ
unfolding search_loop
inside_search fuel h domain = do top ← get_root h; search_loop fuel domain top

-- `net_hashmap_core_module_search`
unfoldable pub lookup : ℕ → List ℕ → ℕ → Cmd ℕ
unfolding inside_search
lookup fuel domain len = elim (hash domain len) [
  | none ↦ fault
  | some h ↦ inside_search fuel h domain
]
