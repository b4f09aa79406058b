-- ===== src/Hashmap/Rbtree/Steps.antt =====
-- net_hashmap_rbtree.c, `rb_insert_color`: what one turn of its loop does, by the nodes above.
use simp_dserver.Prelude.{
  ℕ, suc, ◌≡◌, refl, ◌∙◌, some, List, ◌∷◌, ◌==◌, if◌then◌else◌, true, false, Bool, arith,
}
use simp_dserver.Hashmap.Balanced.{RedBlack}
use simp_dserver.Hashmap.Memory.{Ptr, Color, red, black, Cell, Heap, ◌>>=◌, ◌>>◌, load, is_red}
use simp_dserver.Hashmap.Rbtree.{recolor, rotate_case_left, rotate_case_right, insert_color_loop}
use simp_dserver.Hashmap.Rbtree.Rotate.{not_top, differs}
use simp_dserver.Hashmap.Search.{load-some}
use simp_dserver.Hashmap.Tree.{Tree, node, Rep}
use simp_dserver.Hashmap.Zipper.Frames
use simp_dserver.Hashmap.Zipper.Frames.{linked, top_cell, top_above, at_counts}
use simp_dserver.Hashmap.Zipper.{Frame, left_of, right_of, Ctx, occurs, Zip}
use simp_dserver.Hashmap.Rbtree.Tops.{is_red-some, black_top, red_top, same_ptr}

-- One turn with the cells `c`, `cp` and `cg` of the node, its parent and its grandparent.
module _ (fuel x h : ℕ) (m : Heap) (c cp cg : Cell) (load_x : load x m ≡ some (c, m))
    (red_p : is_red c.parent m ≡ some (true, m)) (load_p : load c.parent m ≡ some (cp, m))
    (load_g : load cp.parent m ≡ some (cg, m)) where
  turn_left :
      (clash : Bool)
      → (c.parent == cg.left) ≡ true
      → is_red cg.right m ≡ some (clash, m)
      → insert_color_loop (suc fuel) x h m
        ≡ (if clash
              then (do recolor cg.right c.parent cp.parent; insert_color_loop fuel cp.parent h)
              else (do
                next ← rotate_case_left x c.parent cp.parent h
                insert_color_loop fuel next h))
            m
  unfolding insert_color_loop
  turn_left clash side uncle = rw (◌>>=◌, load_x, red_p, load_p, load_g, side, uncle) refl

  turn_right :
      (clash : Bool)
      → (c.parent == cg.left) ≡ false
      → is_red cg.left m ≡ some (clash, m)
      → insert_color_loop (suc fuel) x h m
        ≡ (if clash
              then (do recolor cg.left c.parent cp.parent; insert_color_loop fuel cp.parent h)
              else (do
                next ← rotate_case_right x c.parent cp.parent h
                insert_color_loop fuel next h))
            m
  unfolding insert_color_loop
  turn_right clash side uncle = rw (◌>>=◌, load_x, red_p, load_p, load_g, side, uncle) refl

module _ {nodes : Ptr → ℕ} {h : ℕ} {m : Heap} {x g : Ptr} {kx kg : Color} {d dg : List ℕ}
    {ip ig : ℕ} {a b u : Tree} {f : Frame} {ctx : Ctx} where
  -- Below a red node that is the left child of `g`.
  left_turn :
      (fuel : ℕ) (clash : Bool)
      → Zip nodes h m (f ∷ left_of g kg dg ig u ∷ ctx) (node x kx d ip a b)
      → Frames.color f ≡ red
      → ((q : Ptr) → Rep m.cells g q u → is_red q m ≡ some (clash, m))
      → (q : Ptr) × Rep m.cells g q u
        × (insert_color_loop (suc fuel) x h m
            ≡ (if clash then (do recolor q (Frames.at f) g; insert_color_loop fuel g h) else (do
              next ← rotate_case_left x (Frames.at f) g h
              insert_color_loop fuel next h))
                m)
  left_turn fuel clash z dark uncle =
      let (c, ne, there, up, same, k) = top_cell z.tree in
      let l = linked z.path in
      let o = linked l.rest in
      let to_p = up ∙ l.meets in
      let to_g = l.climbs ∙ o.meets in
      (
        o.cell.right,
        o.sibling,
        turn_left fuel x h m c l.cell o.cell (load-some m x c ne there)
              (rw (to_p, is_red-some m (Frames.at f) l.cell l.real l.here, l.colored ∙ dark) refl)
              (rw (to_p) (load-some m (Frames.at f) l.cell l.real l.here))
              (rw (to_g) (load-some m g o.cell o.real o.here)) clash
              (rw (to_p, o.holds) (same_ptr (Frames.at f))) (uncle o.cell.right o.sibling)
            ∙ rw (to_p, to_g) refl,
      )

once_at :
    {nodes : Ptr → ℕ} {h : ℕ} {m : Heap} {g : Ptr} {k : Color} {d : List ℕ} {ip : ℕ} {t u : Tree}
    {f : Frame} {ctx : Ctx}
    → Zip nodes h m (f ∷ right_of g k d ip u ∷ ctx) t
    → occurs (Frames.at f) u ≡ 0
once_at {g} {k} {d} {ip} {u} {f} {ctx} z =
    omega (
      arith,
      at_counts f (right_of g k d ip u ∷ ctx),
      z.parts (Frames.at f),
      z.single (Frames.at f),
    )

module _ {nodes : Ptr → ℕ} {h : ℕ} {m : Heap} {x g : Ptr} {kx kg : Color} {d dg : List ℕ}
    {ip ig : ℕ} {a b u : Tree} {f : Frame} {ctx : Ctx} where
  -- Below a red node that is the right child of `g`.
  right_turn :
      (fuel : ℕ) (clash : Bool)
      → Zip nodes h m (f ∷ right_of g kg dg ig u ∷ ctx) (node x kx d ip a b)
      → Frames.color f ≡ red
      → ((q : Ptr) → Rep m.cells g q u → is_red q m ≡ some (clash, m))
      → (q : Ptr) × Rep m.cells g q u
        × (insert_color_loop (suc fuel) x h m
            ≡ (if clash then (do recolor q (Frames.at f) g; insert_color_loop fuel g h) else (do
              next ← rotate_case_right x (Frames.at f) g h
              insert_color_loop fuel next h))
                m)
  right_turn fuel clash z dark uncle =
      let (c, ne, there, up, same, k) = top_cell z.tree in
      let l = linked z.path in
      let o = linked l.rest in
      let to_p = up ∙ l.meets in
      let to_g = l.climbs ∙ o.meets in
      let apart = once_at z in
      (
        o.cell.left,
        o.sibling,
        turn_right fuel x h m c l.cell o.cell (load-some m x c ne there)
              (rw (to_p, is_red-some m (Frames.at f) l.cell l.real l.here, l.colored ∙ dark) refl)
              (rw (to_p) (load-some m (Frames.at f) l.cell l.real l.here))
              (rw (to_g) (load-some m g o.cell o.real o.here)) clash
              (rw (to_p)
                (differs (Frames.at f) o.cell.left (not_top (Frames.at f) o.sibling l.real apart)))
              (uncle o.cell.left o.sibling)
            ∙ rw (to_p, to_g) refl,
      )

module _ {nodes : Ptr → ℕ} {h : ℕ} {m : Heap} {x g : Ptr} {kx kg : Color} {d dg : List ℕ}
    {ip ig : ℕ} {a b : Tree} {f : Frame} {ctx : Ctx} where
  -- The uncle is red: the colours change and the loop goes on at `g`. Else the tree is rotated.
  pub loop-left-red :
      (fuel : ℕ) {y : Ptr} {e : List ℕ} {jp : ℕ} {v w : Tree}
      → Zip nodes h m (f ∷ left_of g kg dg ig (node y red e jp v w) ∷ ctx) (node x kx d ip a b)
      → Frames.color f ≡ red
      → insert_color_loop (suc fuel) x h m
        ≡ (do recolor y (Frames.at f) g; insert_color_loop fuel g h) m
  loop-left-red fuel z dark =
      let (q, rep, run) = left_turn fuel true z dark (λ q rep. (red_top m rep).1) in
      run ∙ rw ((red_top m rep).0) refl

  pub loop-left-black :
      (fuel : ℕ) {n : ℕ} {u : Tree}
      → Zip nodes h m (f ∷ left_of g kg dg ig u ∷ ctx) (node x kx d ip a b)
      → Frames.color f ≡ red
      → RedBlack black n u
      → insert_color_loop (suc fuel) x h m
        ≡ (rotate_case_left x (Frames.at f) g h >>= λ next. insert_color_loop fuel next h) m
  loop-left-black fuel z dark b =
      let (q, rep, run) = left_turn fuel false z dark (λ q rep. black_top m b rep) in run

  pub loop-right-red :
      (fuel : ℕ) {y : Ptr} {e : List ℕ} {jp : ℕ} {v w : Tree}
      → Zip nodes h m (f ∷ right_of g kg dg ig (node y red e jp v w) ∷ ctx) (node x kx d ip a b)
      → Frames.color f ≡ red
      → insert_color_loop (suc fuel) x h m
        ≡ (do recolor y (Frames.at f) g; insert_color_loop fuel g h) m
  loop-right-red fuel z dark =
      let (q, rep, run) = right_turn fuel true z dark (λ q rep. (red_top m rep).1) in
      run ∙ rw ((red_top m rep).0) refl

  pub loop-right-black :
      (fuel : ℕ) {n : ℕ} {u : Tree}
      → Zip nodes h m (f ∷ right_of g kg dg ig u ∷ ctx) (node x kx d ip a b)
      → Frames.color f ≡ red
      → RedBlack black n u
      → insert_color_loop (suc fuel) x h m
        ≡ (rotate_case_right x (Frames.at f) g h >>= λ next. insert_color_loop fuel next h) m
  loop-right-black fuel z dark b =
      let (q, rep, run) = right_turn fuel false z dark (λ q rep. black_top m b rep) in run
