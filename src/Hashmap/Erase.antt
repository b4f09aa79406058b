-- ===== src/Hashmap/Erase.antt =====
-- net_hashmap_rbtree.c: erasing a node and rebalancing, on memory. The server does not call it.
mod Tests
use simp_dserver.Prelude.{ℕ, zero, suc, Bool, true, false, not, ◌||◌, ◌==◌, if◌then◌else◌}
use simp_dserver.Hashmap.Memory.{
  Ptr, null, Color, red, black, Cell, Cmd, pure, fault, ◌>>=◌, ◌>>◌, load, store, set_parent,
  set_color, set_left, set_right, get_root, set_root, is_red, unless_null,
}
use simp_dserver.Hashmap.Rbtree.{replace_left_first, rotate_left, rotate_right}
use simp_dserver.Hashmap.Walk.{leftmost}

-- `(!other->rb_left || rb_is_black(other->rb_left)) && (...)`
pub both_black : Cell → Cmd Bool
both_black o = do l ← is_red o.left; if l then pure false else (do r ← is_red o.right; pure (not r))

-- How a round of the loop goes on.
pub data Turn : Type 0 where
  again : (node parent : Ptr) → Turn
  settled : Ptr → Turn

-- The rounds where `node` is the left child: a red sibling is rotated up; it gives the sibling.
pub red_right : (parent other : Ptr) → ℕ → Cmd Ptr
red_right parent other h = do
  o ← load other
  elim o.color [
    | black ↦ pure other
    | red ↦ (do
      set_color other black
      set_color parent red
      rotate_left parent h
      p ← load parent
      pure p.right)
  ]

-- The sibling has a red child, which the rotations bring up.
pub repair_right : (parent other : Ptr) → ℕ → Cmd Turn
repair_right parent other h = do
  o ← load other
  far ← is_red o.right
  near ←
      (if far then pure other else (do
        set_color o.left black
        set_color other red
        rotate_right other h
        p ← load parent
        pure p.right))
  p ← load parent
  set_color near p.color
  set_color parent black
  n ← load near
  set_color n.right black
  rotate_left parent h
  top ← get_root h
  pure (settled top)

pub turn_left : Ptr → ℕ → Cmd Turn
unfolding both_black red_right repair_right
turn_left parent h = do
  p ← load parent
  other ← red_right parent p.right h
  o ← load other
  calm ← both_black o
  if calm
      then (do set_color other red; q ← load parent; pure (again parent q.parent))
      else repair_right parent other h

-- The same where `node` is the right child.
pub red_left : (parent other : Ptr) → ℕ → Cmd Ptr
red_left parent other h = do
  o ← load other
  elim o.color [
    | black ↦ pure other
    | red ↦ (do
      set_color other black
      set_color parent red
      rotate_right parent h
      p ← load parent
      pure p.left)
  ]

pub repair_left : (parent other : Ptr) → ℕ → Cmd Turn
repair_left parent other h = do
  o ← load other
  far ← is_red o.left
  near ←
      (if far then pure other else (do
        set_color o.right black
        set_color other red
        rotate_left other h
        p ← load parent
        pure p.left))
  p ← load parent
  set_color near p.color
  set_color parent black
  n ← load near
  set_color n.left black
  rotate_right parent h
  top ← get_root h
  pure (settled top)

pub turn_right : Ptr → ℕ → Cmd Turn
unfolding both_black red_left repair_left
turn_right parent h = do
  p ← load parent
  other ← red_left parent p.left h
  o ← load other
  calm ← both_black o
  if calm
      then (do set_color other red; q ← load parent; pure (again parent q.parent))
      else repair_left parent other h

-- `__rb_erase_color`
pub erase_color : ℕ → (node parent : Ptr) → ℕ → Cmd (Unit {0})
unfolding turn_left turn_right
erase_color zero node parent h = fault
erase_color (suc fuel) node parent h = do
  stop ← is_red node
  top ← get_root h
  if stop || node == top then unless_null node (set_color node black) else do
    p ← load parent
    turn ← (if p.left == node then turn_left parent h else turn_right parent h)
    elim turn [ again n q ↦ erase_color fuel n q h | settled n ↦ unless_null n (set_color n black) ]

-- From `color` on.
pub fix_color : ℕ → Color → (child parent : Ptr) → ℕ → Cmd (Unit {0})
unfolding erase_color
fix_color fuel red child parent h = pure tt
fix_color fuel black child parent h = erase_color fuel child parent h

-- A node with one child at most: the child takes its place.
pub erase_outer : ℕ → (node child : Ptr) → ℕ → Cmd (Unit {0})
unfolding fix_color
erase_outer fuel node child h = do
  n ← load node
  unless_null child (set_parent child n.parent)
  replace_left_first node child n.parent h
  fix_color fuel n.color child n.parent h

-- A node with two children: the leftmost node on its right takes its place.
pub erase_inner : ℕ → Ptr → ℕ → Cmd (Unit {0})
unfolding fix_color
erase_inner fuel old h = do
  o ← load old
  node ← leftmost fuel o.right
  replace_left_first old node o.parent h
  n ← load node
  parent ←
      (if n.parent == old then pure node else (do
        unless_null n.right (set_parent n.right n.parent)
        set_left n.parent n.right
        p ← load old
        set_right node p.right
        set_parent p.right node
        pure n.parent))
  q ← load old
  m ← load node
  store node (record m { parent = q.parent; color = q.color; left = q.left })
  set_parent q.left node
  fix_color fuel n.color n.right parent h

-- `rb_erase`
pub erase : ℕ → Ptr → ℕ → Cmd (Unit {0})
unfolding erase_outer erase_inner
erase fuel node h = do
  n ← load node
  if n.left == null
      then erase_outer fuel node n.right h
      else if n.right == null
      then erase_outer fuel node n.left h
      else erase_inner fuel node h
