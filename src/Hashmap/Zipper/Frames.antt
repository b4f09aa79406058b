-- ===== src/Hashmap/Zipper/Frames.antt =====
-- The node above a hole, and the node at the top of a tree, as cells.
use simp_dserver.Prelude.{◌≡◌, ◌≢◌, refl, some, Option, List, [], ◌∷◌, ℕ, ◌<◌, arith}
use simp_dserver.Hashmap.Memory.{Ptr, null, Color, Cell}
use simp_dserver.Hashmap.Tree.{Tree, node, Rep, node_rep}
use simp_dserver.Hashmap.Zipper.{
  Frame, left_of, right_of, Ctx, around, PathRep, top_rep, left_rep, right_rep,
}

-- The parts of a frame, and its two links: to the hole, and to the other subtree.
abbrev pub at : Frame → Ptr
at (left_of p k d ip r) = p
at (right_of p k d ip l) = p

abbrev pub color : Frame → Color
color (left_of p k d ip r) = k
color (right_of p k d ip l) = k

abbrev pub inner : Frame → Cell → Ptr
inner (left_of p k d ip r) c = c.left
inner (right_of p k d ip l) c = c.right

abbrev pub outer : Frame → Cell → Ptr
outer (left_of p k d ip r) c = c.right
outer (right_of p k d ip l) c = c.left

abbrev pub other : Frame → Tree
other (left_of p k d ip r) = r
other (right_of p k d ip l) = l

-- The cell of the frame above a hole.
pub record Linked (cells : Ptr → Option Cell) (root hole above : Ptr) (f : Frame) (ctx : Ctx)
    : Type 0 where
  pub cell : Cell
  pub next : Ptr
  pub real : at f ≢ null
  pub here : cells (at f) ≡ some cell
  pub colored : cell.color ≡ color f
  pub meets : above ≡ at f
  pub holds : inner f cell ≡ hole
  pub sibling : Rep cells (at f) (outer f cell) (other f)
  pub climbs : cell.parent ≡ next
  pub rest : PathRep cells root (at f) next ctx

pub linked :
    {cells : Ptr → Option Cell} {root hole above : Ptr} {f : Frame} {ctx : Ctx}
    → PathRep cells root hole above (f ∷ ctx)
    → Linked cells root hole above f ctx
linked (left_rep {above} c ne there up down r path) = record {
  cell = c;
  next = above;
  real = ne;
  here = there;
  colored = refl;
  meets = refl;
  holds = down;
  sibling = r;
  climbs = up;
  rest = path;
}
linked (right_rep {above} c ne there up down l path) = record {
  cell = c;
  next = above;
  real = ne;
  here = there;
  colored = refl;
  meets = refl;
  holds = down;
  sibling = l;
  climbs = up;
  rest = path;
}

-- The cell of the top of a tree.
pub top_cell :
    {cells : Ptr → Option Cell} {above hole x : Ptr} {k : Color} {d : List ℕ} {ip : ℕ} {a b : Tree}
    → Rep cells above hole (node x k d ip a b)
    → (c : Cell) × (x ≢ null) × (cells x ≡ some c) × (c.parent ≡ above) × (hole ≡ x) × (c.color ≡ k)
top_cell (node_rep c ne there up l r) = (c, ne, there, up, refl, refl)

pub top_above :
    {cells : Ptr → Option Cell} {root hole above : Ptr}
    → PathRep cells root hole above []
    → above ≡ null
top_above (top_rep e) = refl

pub at_counts : (f : Frame) (ctx : Ctx) → around (at f) ctx < around (at f) (f ∷ ctx)
at_counts (left_of p k d ip r) ctx = ground arith
at_counts (right_of p k d ip l) ctx = ground arith

pub root_top :
    {cells : Ptr → Option Cell} {root hole above : Ptr}
    → PathRep cells root hole above []
    → root ≡ hole
root_top (top_rep e) = e
