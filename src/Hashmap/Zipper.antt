-- ===== src/Hashmap/Zipper.antt =====
-- A bucket's tree with a hole: the part that a step of the code changes, and the way up to the root.
pub mod Edit
pub mod Frames
use mathlib.Core.Path.{subst}
use simp_dserver.Prelude.{
  one_if, ℕ, zero, suc, ◌+◌, ◌≤◌, ◌<◌, ◌≡◌, ◌≢◌, refl, sym, ap, ◌∙◌, arith, some, Option, List, [],
  ◌∷◌, ◌==◌, if◌then◌else◌,
}
use simp_dserver.Hashmap.Memory.{Ptr, null, Color, Cell, Heap}
use simp_dserver.Hashmap.Tree.{Tree, leaf, node, Rep, leaf_rep, node_rep}

-- A node on the way up, the hole on its left or on its right, with its other subtree.
pub data Frame : Type 0 where
  left_of : (at : Ptr) → Color → (domain : List ℕ) → (ipv4 : ℕ) → (right : Tree) → Frame
  right_of : (at : Ptr) → Color → (domain : List ℕ) → (ipv4 : ℕ) → (left : Tree) → Frame

abbrev pub Ctx : Type 0
Ctx = List Frame

abbrev pub plug : Ctx → Tree → Tree
plug [] t = t
plug (left_of p k d ip r ∷ ctx) t = plug ctx (node p k d ip t r)
plug (right_of p k d ip l ∷ ctx) t = plug ctx (node p k d ip l t)

-- How often a pointer is that of a node in a tree, and on the way up.
abbrev pub occurs : Ptr → Tree → ℕ
occurs q leaf = 0
occurs q (node p k d ip l r) = one_if q p + (occurs q l + occurs q r)

abbrev pub around : Ptr → Ctx → ℕ
around q [] = 0
around q (left_of p k d ip r ∷ ctx) = one_if q p + (occurs q r + around q ctx)
around q (right_of p k d ip l ∷ ctx) = one_if q p + (occurs q l + around q ctx)

-- The cells on the way from the hole, where `hole` stands below `parent`, up to `root`.
pub data PathRep (cells : Ptr → Option Cell) (root : Ptr) : (hole parent : Ptr) → Ctx → Type 0 where
  top_rep : {hole : Ptr} → root ≡ hole → PathRep cells root hole null []
  left_rep :
      {p hole above : Ptr} {r : Tree} {ctx : Ctx} (c : Cell)
      → p ≢ null
      → cells p ≡ some c
      → c.parent ≡ above
      → c.left ≡ hole
      → Rep cells p c.right r
      → PathRep cells root p above ctx
      → PathRep cells root hole p (left_of p c.color c.domain c.ipv4 r ∷ ctx)
  right_rep :
      {p hole above : Ptr} {l : Tree} {ctx : Ctx} (c : Cell)
      → p ≢ null
      → cells p ≡ some c
      → c.parent ≡ above
      → c.right ≡ hole
      → Rep cells p c.left l
      → PathRep cells root p above ctx
      → PathRep cells root hole p (right_of p c.color c.domain c.ipv4 l ∷ ctx)

module _ {cells cells' : Ptr → Option Cell} where
  -- What a tree stands on may change elsewhere.
  pub Rep-frame :
      {parent p : Ptr} {t : Tree}
      → Rep cells parent p t
      → ((q : Ptr) → 0 < occurs q t → cells' q ≡ cells q)
      → Rep cells' parent p t
  Rep-frame leaf_rep same = leaf_rep
  Rep-frame (node_rep {p} c ne at up l r) same =
      node_rep c ne (same p (ground arith) ∙ at) up (Rep-frame l λ q i. same q (omega arith))
        (Rep-frame r λ q i. same q (omega arith))

  pub PathRep-frame :
      {root hole parent : Ptr} {ctx : Ctx}
      → PathRep cells root hole parent ctx
      → ((q : Ptr) → 0 < around q ctx → cells' q ≡ cells q)
      → PathRep cells' root hole parent ctx
  PathRep-frame (top_rep e) same = top_rep e
  PathRep-frame (left_rep {p} c ne at up down r above) same =
      left_rep c ne (same p (ground arith) ∙ at) up down (Rep-frame r λ q i. same q (omega arith))
        (PathRep-frame above λ q i. same q (omega arith))
  PathRep-frame (right_rep {p} c ne at up down l above) same =
      right_rep c ne (same p (ground arith) ∙ at) up down (Rep-frame l λ q i. same q (omega arith))
        (PathRep-frame above λ q i. same q (omega arith))

-- The bucket `h` of `m` stands for `t` in its context, on the nodes that `nodes` counts, each once.
pub record Zip (nodes : Ptr → ℕ) (h : ℕ) (m : Heap) (ctx : Ctx) (t : Tree) : Type 0 where
  pub hole : Ptr
  pub above : Ptr
  pub path : PathRep m.cells (m.roots h) hole above ctx
  pub tree : Rep m.cells above hole t
  pub parts : (q : Ptr) → occurs q t + around q ctx ≡ nodes q
  pub single : (q : Ptr) → nodes q ≤ 1

-- Nothing changes but the cells of these nodes and the root of the bucket.
pub record Outside (nodes : Ptr → ℕ) (h : ℕ) (m m' : Heap) : Type 0 where
  pub others : (q : Ptr) → nodes q ≡ 0 → m'.cells q ≡ m.cells q
  pub roots : (g : ℕ) → g ≢ h → m'.roots g ≡ m.roots g

module _ {nodes : Ptr → ℕ} {h : ℕ} where
  pub Outside-refl : (m : Heap) → Outside nodes h m m
  Outside-refl m = record { others = λ q e. refl; roots = λ g ne. refl }

  pub Outside-trans :
      {a b c : Heap} → Outside nodes h a b → Outside nodes h b c → Outside nodes h a c
  Outside-trans f s = record {
    others = λ q e. s.others q e ∙ f.others q e;
    roots = λ g ne. s.roots g ne ∙ f.roots g ne;
  }

module _ {cells : Ptr → Option Cell} where
  pub root_of : {parent p : Ptr} {t : Tree} → Rep cells parent p t → p ≢ null → 0 < occurs p t
  root_of leaf_rep ne = absurd (ne refl)
  root_of (node_rep c ne at up l r) _ = ground arith

  -- The cells of a node stand for the node where the hole was below it, and the other way round.
  joined_left :
      {root hole above p : Ptr} {k : Color} {d : List ℕ} {ip : ℕ} {l r : Tree} {ctx : Ctx}
      → PathRep cells root hole above (left_of p k d ip r ∷ ctx)
      → Rep cells above hole l
      → (up : Ptr) × PathRep cells root p up ctx × Rep cells up p (node p k d ip l r)
  joined_left {l} (left_rep {p} {above} c ne at up down r path) t =
      (above, path, node_rep c ne at up (subst (λ x. Rep cells p x l) (sym down) t) r)

  joined_right :
      {root hole above p : Ptr} {k : Color} {d : List ℕ} {ip : ℕ} {l r : Tree} {ctx : Ctx}
      → PathRep cells root hole above (right_of p k d ip l ∷ ctx)
      → Rep cells above hole r
      → (up : Ptr) × PathRep cells root p up ctx × Rep cells up p (node p k d ip l r)
  joined_right {r} (right_rep {p} {above} c ne at up down l path) t =
      (above, path, node_rep c ne at up l (subst (λ x. Rep cells p x r) (sym down) t))

  opened_left :
      {root hole above p : Ptr} {k : Color} {d : List ℕ} {ip : ℕ} {l r : Tree} {ctx : Ctx}
      → PathRep cells root hole above ctx
      → Rep cells above hole (node p k d ip l r)
      → (q : Ptr) × PathRep cells root q p (left_of p k d ip r ∷ ctx) × Rep cells p q l
  opened_left path (node_rep c ne at up l r) = (c.left, left_rep c ne at up refl r path, l)

  opened_right :
      {root hole above p : Ptr} {k : Color} {d : List ℕ} {ip : ℕ} {l r : Tree} {ctx : Ctx}
      → PathRep cells root hole above ctx
      → Rep cells above hole (node p k d ip l r)
      → (q : Ptr) × PathRep cells root q p (right_of p k d ip l ∷ ctx) × Rep cells p q r
  opened_right path (node_rep c ne at up l r) = (c.right, right_rep c ne at up refl l path, r)

module _ {nodes : Ptr → ℕ} {h : ℕ} {m : Heap} {p : Ptr} {k : Color} {d : List ℕ} {ip : ℕ}
    {ctx : Ctx} {l r : Tree} where
  -- Moving the hole up by one node, and down to either side.
  pub up_left : Zip nodes h m (left_of p k d ip r ∷ ctx) l → Zip nodes h m ctx (node p k d ip l r)
  up_left z =
      let (above, path, tree) = joined_left z.path z.tree in
      record {
        hole = p;
        above = above;
        path = path;
        tree = tree;
        parts = λ q. omega (arith, z.parts q);
        single = z.single;
      }

  pub up_right : Zip nodes h m (right_of p k d ip l ∷ ctx) r → Zip nodes h m ctx (node p k d ip l r)
  up_right z =
      let (above, path, tree) = joined_right z.path z.tree in
      record {
        hole = p;
        above = above;
        path = path;
        tree = tree;
        parts = λ q. omega (arith, z.parts q);
        single = z.single;
      }

  pub down_left : Zip nodes h m ctx (node p k d ip l r) → Zip nodes h m (left_of p k d ip r ∷ ctx) l
  down_left z =
      let (hole, path, tree) = opened_left z.path z.tree in
      record {
        hole = hole;
        above = p;
        path = path;
        tree = tree;
        parts = λ q. omega (arith, z.parts q);
        single = z.single;
      }

  pub down_right :
      Zip nodes h m ctx (node p k d ip l r) → Zip nodes h m (right_of p k d ip l ∷ ctx) r
  down_right z =
      let (hole, path, tree) = opened_right z.path z.tree in
      record {
        hole = hole;
        above = p;
        path = path;
        tree = tree;
        parts = λ q. omega (arith, z.parts q);
        single = z.single;
      }

module _ {nodes : Ptr → ℕ} {h : ℕ} {m : Heap} where
  pub up : (ctx : Ctx) {t : Tree} → Zip nodes h m ctx t → Zip nodes h m [] (plug ctx t)
  up [] z = z
  up (left_of p k d ip r ∷ ctx) z = up ctx (up_left z)
  up (right_of p k d ip l ∷ ctx) z = up ctx (up_right z)
