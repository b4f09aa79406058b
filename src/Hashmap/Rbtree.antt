-- ===== src/Hashmap/Rbtree.antt =====
-- net_hashmap_rbtree.{h,c}: linking a node into a red-black tree and rebalancing, on memory.
pub mod Rotate
pub mod Inverse
pub mod Steps
pub mod Repair
pub mod Settle
pub mod Tops
pub mod Turned
pub mod Balance
use simp_dserver.Prelude.{ℕ, zero, suc, not, ◌==◌, if◌then◌else◌}
use simp_dserver.Hashmap.Memory.{
  Ptr, null, red, black, Cmd, pure, fault, ◌>>=◌, ◌>>◌, load, set_parent, set_color, set_left,
  set_right, get_root, set_root, is_red, unless_null,
}

-- The end of a rotation: `top` takes the place of `node` under `parent`. The test asks for one
-- side; `replace_left_first` is `node == parent->rb_left`, the other `node == parent->rb_right`.
unfoldable pub replace_left_first : Ptr → Ptr → Ptr → ℕ → Cmd (Unit {0})
replace_left_first node top parent h =
    if parent == null
    then set_root h top
    else do p ← load parent; if node == p.left then set_left parent top else set_right parent top

pub replace_right_first : Ptr → Ptr → Ptr → ℕ → Cmd (Unit {0})
replace_right_first node top parent h =
    if parent == null
    then set_root h top
    else do p ← load parent; if node == p.right then set_right parent top else set_left parent top

-- `__rb_rotate_left`
pub rotate_left : Ptr → ℕ → Cmd (Unit {0})
unfolding replace_left_first
rotate_left node h = do
  n ← load node
  r ← load n.right
  set_right node r.left
  unless_null r.left (set_parent r.left node)
  set_left n.right node
  set_parent n.right n.parent
  replace_left_first node n.right n.parent h
  set_parent node n.right

-- `__rb_rotate_right`
pub rotate_right : Ptr → ℕ → Cmd (Unit {0})
unfolding replace_right_first
rotate_right node h = do
  n ← load node
  l ← load n.left
  set_left node l.right
  unless_null l.right (set_parent l.right node)
  set_right n.left node
  set_parent n.left n.parent
  replace_right_first node n.left n.parent h
  set_parent node n.left

-- `rb_set_black(uncle); rb_set_black(parent); rb_set_red(gparent);`
pub recolor : Ptr → Ptr → Ptr → Cmd (Unit {0})
recolor uncle parent gparent = do
  set_color uncle black
  set_color parent black
  set_color gparent red

-- The two rotating cases, once `parent` is the left child of `gparent`, and mirrored.
pub rotate_case_left : Ptr → Ptr → Ptr → ℕ → Cmd Ptr
unfolding rotate_left rotate_right
rotate_case_left node parent gparent h = do
  p ← load parent
  if p.right == node
      then (do
        rotate_left parent h
        set_color node black
        set_color gparent red
        rotate_right gparent h
        pure parent)
      else (do set_color parent black; set_color gparent red; rotate_right gparent h; pure node)

pub rotate_case_right : Ptr → Ptr → Ptr → ℕ → Cmd Ptr
unfolding rotate_left rotate_right
rotate_case_right node parent gparent h = do
  p ← load parent
  if p.left == node
      then (do
        rotate_right parent h
        set_color node black
        set_color gparent red
        rotate_left gparent h
        pure parent)
      else (do set_color parent black; set_color gparent red; rotate_left gparent h; pure node)

-- The `while` loop of `rb_insert_color`.
pub insert_color_loop : ℕ → Ptr → ℕ → Cmd (Unit {0})
unfolding recolor rotate_case_left rotate_case_right
insert_color_loop zero node h = fault
insert_color_loop (suc fuel) node h = do
  n ← load node
  climb ← is_red n.parent
  if not climb then pure tt else do
    p ← load n.parent
    g ← load p.parent
    if n.parent == g.left
        then (do
          clash ← is_red g.right
          if clash
              then (do recolor g.right n.parent p.parent; insert_color_loop fuel p.parent h)
              else (do
                next ← rotate_case_left node n.parent p.parent h
                insert_color_loop fuel next h))
        else (do
          clash ← is_red g.left
          if clash
              then (do recolor g.left n.parent p.parent; insert_color_loop fuel p.parent h)
              else (do
                next ← rotate_case_right node n.parent p.parent h
                insert_color_loop fuel next h))

-- `rb_insert_color`
unfoldable pub insert_color : ℕ → Ptr → ℕ → Cmd (Unit {0})
unfolding insert_color_loop
insert_color fuel node h = do insert_color_loop fuel node h; top ← get_root h; set_color top black
