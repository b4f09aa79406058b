-- ===== src/Hashmap/Rbtree/Repair.antt =====
-- net_hashmap_rbtree.c, `rb_insert_color`: the recolouring and the rotations at one grandparent.
use simp_dserver.Prelude.{ℕ, ◌≡◌, ◌≢◌, refl, sym, arith, some, Option, List, ◌==◌, true}
use simp_dserver.Hashmap.Memory.{Ptr, null, Color, red, black, Cell, Heap, ◌>>=◌}
use simp_dserver.Hashmap.Rbtree.{recolor, rotate_case_left, rotate_case_right}
use simp_dserver.Hashmap.Rbtree.Rotate.{not_top, differs}
use simp_dserver.Hashmap.Rbtree.Rotate.Left.{rotate_left-Zip}
use simp_dserver.Hashmap.Rbtree.Rotate.Right.{rotate_right-Zip}
use simp_dserver.Hashmap.Search.{load-some}
use simp_dserver.Hashmap.Tree.{Tree, node, Rep, node_rep}
use simp_dserver.Hashmap.Zipper.{
  Ctx, Zip, Outside, Outside-trans, up_left, up_right, down_left, down_right,
}
use simp_dserver.Hashmap.Zipper.Edit.{Becomes, set_color-Zip}
use simp_dserver.Hashmap.Zipper.Frames.{top_cell}

-- What a command that gives the pointer `next` leads to.
abbrev pub Yields : (Ptr → ℕ) → ℕ → (Heap → Option (Ptr × Heap)) → Ptr → Heap → Ctx → Tree → Type 0
Yields nodes h run next m ctx t =
    (m' : Heap) × (run m ≡ some (next, m')) × Zip nodes h m' ctx t × Outside nodes h m m'

-- The children of the top of a tree: which of them is `x`.
child_cell :
    {cells : Ptr → Option Cell} {above hole p : Ptr} {k : Color} {d : List ℕ} {ip : ℕ} {a b : Tree}
    → Rep cells above hole (node p k d ip a b)
    → (c : Cell) × (p ≢ null) × (cells p ≡ some c) × Rep cells p c.left a × Rep cells p c.right b
child_cell (node_rep c ne there up l r) = (c, ne, there, l, r)

same_ptr : (p q : Ptr) → q ≡ p → (q == p) ≡ true
same_ptr p q e = ground arith

module _ {nodes : Ptr → ℕ} {h : ℕ} {m : Heap} {ctx : Ctx} {g p y : Ptr} {kg kp ky : Color}
    {dg dp dy : List ℕ} {ig ip iy : ℕ} {a b v w : Tree} where
  pub recolor_left-Zip :
      Zip nodes h m ctx (node g kg dg ig (node p kp dp ip a b) (node y ky dy iy v w))
      → Becomes nodes h
          (recolor y p g)
          m
          ctx
          (node g red dg ig (node p black dp ip a b) (node y black dy iy v w))
  unfolding recolor
  recolor_left-Zip z =
      let (m1, run1, z1, o1) = set_color-Zip (down_right z) black in
      let (m2, run2, z2, o2) = set_color-Zip (down_left (up_right z1)) black in
      let (m3, run3, z3, o3) = set_color-Zip (up_left z2) red in
      (m3, rw (◌>>=◌, run1, run2, run3) refl, z3, Outside-trans o1 (Outside-trans o2 o3))

module _ {nodes : Ptr → ℕ} {h : ℕ} {m : Heap} {ctx : Ctx} {g p y : Ptr} {kg kp ky : Color}
    {dg dp dy : List ℕ} {ig ip iy : ℕ} {a b v w : Tree} where
  pub recolor_right-Zip :
      Zip nodes h m ctx (node g kg dg ig (node y ky dy iy v w) (node p kp dp ip a b))
      → Becomes nodes h
          (recolor y p g)
          m
          ctx
          (node g red dg ig (node y black dy iy v w) (node p black dp ip a b))
  unfolding recolor
  recolor_right-Zip z =
      let (m1, run1, z1, o1) = set_color-Zip (down_left z) black in
      let (m2, run2, z2, o2) = set_color-Zip (down_right (up_left z1)) black in
      let (m3, run3, z3, o3) = set_color-Zip (up_right z2) red in
      (m3, rw (◌>>=◌, run1, run2, run3) refl, z3, Outside-trans o1 (Outside-trans o2 o3))

module _ {nodes : Ptr → ℕ} {h : ℕ} {m : Heap} {ctx : Ctx} {g p x : Ptr} {kg kp kx : Color}
    {dg dp dx : List ℕ} {ig ip ix : ℕ} {a b c u : Tree} where
  pub rotate_case_left-inner :
      Zip nodes h m ctx (node g kg dg ig (node p kp dp ip a (node x kx dx ix b c)) u)
      → Yields nodes h
          (rotate_case_left x p g h)
          p
          m
          ctx
          (node x black dx ix (node p kp dp ip a b) (node g red dg ig c u))
  unfolding rotate_case_left
  rotate_case_left-inner z =
      let (cp, ne, there, cl, cr) = child_cell (down_left z).tree in
      let (cx, ne_x, at_x, up_x, is_x, k) = top_cell cr in
      let (m1, run1, z1, o1) = rotate_left-Zip (down_left z) in
      let (m2, run2, z2, o2) = set_color-Zip z1 black in
      let (m3, run3, z3, o3) = set_color-Zip (up_left z2) red in
      let (m4, run4, z4, o4) = rotate_right-Zip z3 in
      (
        m4,
        rw (◌>>=◌, load-some m p cp ne there, same_ptr x cp.right is_x, run1, run2, run3, run4)
            refl,
        z4,
        Outside-trans o1 (Outside-trans o2 (Outside-trans o3 o4)),
      )

  pub rotate_case_left-outer :
      Zip nodes h m ctx (node g kg dg ig (node p kp dp ip (node x kx dx ix a b) c) u)
      → Yields nodes h
          (rotate_case_left x p g h)
          x
          m
          ctx
          (node p black dp ip (node x kx dx ix a b) (node g red dg ig c u))
  unfolding rotate_case_left
  rotate_case_left-outer z =
      let (cp, ne, there, cl, cr) = child_cell (down_left z).tree in
      let (cx, ne_x, at_x, up_x, is_x, k) = top_cell cl in
      let other = not_top x cr ne_x (let n = z.parts x in let s = z.single x in ground arith) in
      let (m1, run1, z1, o1) = set_color-Zip (down_left z) black in
      let (m2, run2, z2, o2) = set_color-Zip (up_left z1) red in
      let (m3, run3, z3, o3) = rotate_right-Zip z2 in
      (
        m3,
        rw
            (
              ◌>>=◌,
              load-some m p cp ne there,
              differs cp.right x (λ e. other (sym e)),
              run1,
              run2,
              run3,
            )
            refl,
        z3,
        Outside-trans o1 (Outside-trans o2 o3),
      )

module _ {nodes : Ptr → ℕ} {h : ℕ} {m : Heap} {ctx : Ctx} {g p x : Ptr} {kg kp kx : Color}
    {dg dp dx : List ℕ} {ig ip ix : ℕ} {a b c u : Tree} where
  pub rotate_case_right-inner :
      Zip nodes h m ctx (node g kg dg ig u (node p kp dp ip (node x kx dx ix c b) a))
      → Yields nodes h
          (rotate_case_right x p g h)
          p
          m
          ctx
          (node x black dx ix (node g red dg ig u c) (node p kp dp ip b a))
  unfolding rotate_case_right
  rotate_case_right-inner z =
      let (cp, ne, there, cl, cr) = child_cell (down_right z).tree in
      let (cx, ne_x, at_x, up_x, is_x, k) = top_cell cl in
      let (m1, run1, z1, o1) = rotate_right-Zip (down_right z) in
      let (m2, run2, z2, o2) = set_color-Zip z1 black in
      let (m3, run3, z3, o3) = set_color-Zip (up_right z2) red in
      let (m4, run4, z4, o4) = rotate_left-Zip z3 in
      (
        m4,
        rw (◌>>=◌, load-some m p cp ne there, same_ptr x cp.left is_x, run1, run2, run3, run4) refl,
        z4,
        Outside-trans o1 (Outside-trans o2 (Outside-trans o3 o4)),
      )

  pub rotate_case_right-outer :
      Zip nodes h m ctx (node g kg dg ig u (node p kp dp ip c (node x kx dx ix b a)))
      → Yields nodes h
          (rotate_case_right x p g h)
          x
          m
          ctx
          (node p black dp ip (node g red dg ig u c) (node x kx dx ix b a))
  unfolding rotate_case_right
  rotate_case_right-outer z =
      let (cp, ne, there, cl, cr) = child_cell (down_right z).tree in
      let (cx, ne_x, at_x, up_x, is_x, k) = top_cell cr in
      let other = not_top x cl ne_x (let n = z.parts x in let s = z.single x in ground arith) in
      let (m1, run1, z1, o1) = set_color-Zip (down_right z) black in
      let (m2, run2, z2, o2) = set_color-Zip (up_right z1) red in
      let (m3, run3, z3, o3) = rotate_left-Zip z2 in
      (
        m3,
        rw
            (
              ◌>>=◌,
              load-some m p cp ne there,
              differs cp.left x (λ e. other (sym e)),
              run1,
              run2,
              run3,
            )
            refl,
        z3,
        Outside-trans o1 (Outside-trans o2 o3),
      )
