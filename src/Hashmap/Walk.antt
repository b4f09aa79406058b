-- ===== src/Hashmap/Walk.antt =====
-- net_hashmap_rbtree.c: the first and last node of a tree, the node after or before one, and the
-- replacement of a node.
pub mod Ends
use simp_dserver.Prelude.{ℕ, zero, suc, ◌==◌, if◌then◌else◌}
use simp_dserver.Hashmap.Memory.{
  Ptr, null, Cmd, pure, fault, ◌>>=◌, ◌>>◌, load, store, get_root, set_parent, unless_null,
}
use simp_dserver.Hashmap.Rbtree.{replace_left_first}

-- `while (n->rb_left) n = n->rb_left;`, and to the right.
unfoldable pub leftmost : ℕ → Ptr → Cmd Ptr
leftmost zero n = fault
leftmost (suc fuel) n = do c ← load n; if c.left == null then pure n else leftmost fuel c.left

pub rightmost : ℕ → Ptr → Cmd Ptr
rightmost zero n = fault
rightmost (suc fuel) n = do c ← load n; if c.right == null then pure n else rightmost fuel c.right

-- `rb_first` and `rb_last`
pub first : ℕ → ℕ → Cmd Ptr
first fuel h = do n ← get_root h; if n == null then pure null else leftmost fuel n

pub last : ℕ → ℕ → Cmd Ptr
last fuel h = do n ← get_root h; if n == null then pure null else rightmost fuel n

-- `while((parent = rb_parent(node)) && node == parent->rb_right) node = parent;` and mirrored.
pub climb_right : ℕ → Ptr → Cmd Ptr
climb_right zero node = fault
climb_right (suc fuel) node = do
  n ← load node
  if n.parent == null then pure null else do
    p ← load n.parent
    if node == p.right then climb_right fuel n.parent else pure n.parent

pub climb_left : ℕ → Ptr → Cmd Ptr
climb_left zero node = fault
climb_left (suc fuel) node = do
  n ← load node
  if n.parent == null
      then pure null
      else do p ← load n.parent; if node == p.left then climb_left fuel n.parent else pure n.parent

-- `rb_next` and `rb_prev`
unfoldable pub following : ℕ → Ptr → Cmd Ptr
unfolding climb_right leftmost
following fuel node = do
  n ← load node
  if n.parent == node
      then pure null
      else if n.right == null
      then climb_right fuel node
      else leftmost fuel n.right

unfoldable pub preceding : ℕ → Ptr → Cmd Ptr
unfolding climb_left rightmost
preceding fuel node = do
  n ← load node
  if n.parent == node
      then pure null
      else if n.left == null
      then climb_left fuel node
      else rightmost fuel n.left

-- `rb_replace_node`; `*new = *victim` copies the links and the colour.
unfoldable pub replace_node : Ptr → Ptr → ℕ → Cmd (Unit {0})
unfolding replace_left_first
replace_node victim new h = do
  v ← load victim
  replace_left_first victim new v.parent h
  w ← load victim
  unless_null w.left (set_parent w.left new)
  x ← load victim
  unless_null x.right (set_parent x.right new)
  y ← load victim
  n ← load new
  store new (record n { parent = y.parent; color = y.color; right = y.right; left = y.left })
