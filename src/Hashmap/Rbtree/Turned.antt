-- ===== src/Hashmap/Rbtree/Turned.antt =====
-- net_hashmap_rbtree.c, `rb_insert_color`: what it leaves of a bucket, and the rotating cases.
use simp_dserver.Prelude.{ℕ, suc, ◌≡◌, refl, sym, ap, ◌∙◌, some, Option, List, [], ◌∷◌}
use simp_dserver.Hashmap.Balanced.{RedBlack, Fits, plug-RedBlack, inorder, inorder-plug}
use simp_dserver.Hashmap.Memory.{Ptr, Color, red, black, Heap, ◌>>=◌}
use simp_dserver.Hashmap.Rbtree.{rotate_case_left, rotate_case_right, insert_color_loop}
use simp_dserver.Hashmap.Rbtree.Repair.{Yields}
use simp_dserver.Hashmap.Rbtree.Tops.{loop-black}
use simp_dserver.Hashmap.Rbtree.Steps.{loop-left-black, loop-right-black}
use simp_dserver.Hashmap.Tree.{Tree, node}
use simp_dserver.Hashmap.Zipper.Frames
use simp_dserver.Hashmap.Zipper.Frames.{top_cell, root_top}
use simp_dserver.Hashmap.Zipper.{
  Frame, left_of, right_of, Ctx, plug, Zip, Outside, Outside-refl, Outside-trans, down_left,
  down_right, up,
}

-- What a command leaves of a bucket with the hole `ctx` filled by `t`: a red-black tree of the same
-- domains in the same order, and all else as it was.
pub record Settled (nodes : Ptr → ℕ) (h : ℕ) (run : Heap → Option (Unit {0} × Heap)) (m : Heap)
    (ctx : Ctx) (t : Tree) : Type 0 where
  pub after : Heap
  pub result : Tree
  pub ends : run m ≡ some (tt, after)
  pub zip : Zip nodes h after [] result
  pub color : Color
  pub depth : ℕ
  pub balanced : RedBlack color depth result
  pub ordered : inorder result ≡ inorder (plug ctx t)
  pub outside : Outside nodes h m after

module _ {nodes : Ptr → ℕ} {h : ℕ} {run : Heap → Option (Unit {0} × Heap)} {m : Heap} {ctx : Ctx}
    {t : Tree} where
  pub Settled-here :
      {k : Color} {n : ℕ}
      → run m ≡ some (tt, m)
      → Zip nodes h m ctx t
      → Fits k n ctx
      → RedBlack k n t
      → Settled nodes h run m ctx t
  Settled-here e z fit b =
      let (n', b') = plug-RedBlack t fit b in
      record {
        after = m;
        result = plug ctx t;
        ends = e;
        zip = up ctx z;
        color = _;
        depth = n';
        balanced = b';
        ordered = refl;
        outside = Outside-refl m;
      }

  pub Settled-after :
      {run1 : Heap → Option (Unit {0} × Heap)} {m1 : Heap} {ctx1 : Ctx} {t1 : Tree}
      → run m ≡ run1 m1
      → Outside nodes h m m1
      → inorder (plug ctx1 t1) ≡ inorder (plug ctx t)
      → Settled nodes h run1 m1 ctx1 t1
      → Settled nodes h run m ctx t
  Settled-after e out order s = record {
    after = s.after;
    result = s.result;
    ends = e ∙ s.ends;
    zip = s.zip;
    color = s.color;
    depth = s.depth;
    balanced = s.balanced;
    ordered = s.ordered ∙ order;
    outside = Outside-trans out s.outside;
  }

plug_two :
    (f g : Frame) (ctx : Ctx) (t : Tree) → plug (f ∷ g ∷ ctx) t ≡ plug ctx (plug (f ∷ g ∷ []) t)
plug_two (left_of p k d ip r) (left_of q j e iq s) ctx t = refl
plug_two (left_of p k d ip r) (right_of q j e iq s) ctx t = refl
plug_two (right_of p k d ip l) (left_of q j e iq s) ctx t = refl
plug_two (right_of p k d ip l) (right_of q j e iq s) ctx t = refl

module _ {nodes : Ptr → ℕ} {h : ℕ} {m : Heap} {ctx : Ctx} {f : Frame} {g x q next : Ptr}
    {kg kx kn : Color} {dg dx dq dn : List ℕ} {ig ix iq jn n : ℕ} {s t u b c e : Tree} where
  pub turned_left :
      (fuel : ℕ)
      → Zip nodes h m (f ∷ left_of g kg dg ig u ∷ ctx) (node x kx dx ix s t)
      → Frames.color f ≡ red
      → RedBlack black n u
      → Yields nodes h
          (rotate_case_left x (Frames.at f) g h)
          next
          m
          ctx
          (node q black dq iq (node next kn dn jn b c) e)
      → inorder (node q black dq iq (node next kn dn jn b c) e)
        ≡ inorder (plug (f ∷ left_of g kg dg ig u ∷ []) (node x kx dx ix s t))
      → Fits black (suc n) ctx
      → RedBlack black (suc n) (node q black dq iq (node next kn dn jn b c) e)
      → Settled nodes h
          (insert_color_loop (suc (suc fuel)) x h)
          m
          (f ∷ left_of g kg dg ig u ∷ ctx)
          (node x kx dx ix s t)
  turned_left fuel z dark bu (m1, run, z1, out) order fit b1 =
      Settled-after {run1 = insert_color_loop (suc fuel) next h}
        (loop-left-black (suc fuel) z dark bu ∙ rw (◌>>=◌, run) refl) out
        (inorder-plug ctx _ _ order
          ∙ sym (ap inorder (plug_two f (left_of g kg dg ig u) ctx (node x kx dx ix s t))))
        (Settled-here (loop-black fuel (down_left z1) refl) z1 fit b1)

module _ {nodes : Ptr → ℕ} {h : ℕ} {m : Heap} {ctx : Ctx} {f : Frame} {g x q next : Ptr}
    {kg kx kn : Color} {dg dx dq dn : List ℕ} {ig ix iq jn n : ℕ} {s t u b c e : Tree} where
  pub turned_right :
      (fuel : ℕ)
      → Zip nodes h m (f ∷ right_of g kg dg ig u ∷ ctx) (node x kx dx ix s t)
      → Frames.color f ≡ red
      → RedBlack black n u
      → Yields nodes h
          (rotate_case_right x (Frames.at f) g h)
          next
          m
          ctx
          (node q black dq iq e (node next kn dn jn b c))
      → inorder (node q black dq iq e (node next kn dn jn b c))
        ≡ inorder (plug (f ∷ right_of g kg dg ig u ∷ []) (node x kx dx ix s t))
      → Fits black (suc n) ctx
      → RedBlack black (suc n) (node q black dq iq e (node next kn dn jn b c))
      → Settled nodes h
          (insert_color_loop (suc (suc fuel)) x h)
          m
          (f ∷ right_of g kg dg ig u ∷ ctx)
          (node x kx dx ix s t)
  turned_right fuel z dark bu (m1, run, z1, out) order fit b1 =
      Settled-after {run1 = insert_color_loop (suc fuel) next h}
        (loop-right-black (suc fuel) z dark bu ∙ rw (◌>>=◌, run) refl) out
        (inorder-plug ctx _ _ order
          ∙ sym (ap inorder (plug_two f (right_of g kg dg ig u) ctx (node x kx dx ix s t))))
        (Settled-here (loop-black fuel (down_right z1) refl) z1 fit b1)
