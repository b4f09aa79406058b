-- ===== src/Hashmap/Rbtree/Tops.antt =====
-- net_hashmap_rbtree.c, `rb_insert_color`: colours as the loop reads them, and where it ends.
use simp_dserver.Prelude.{
  ℕ, suc, ◌≡◌, ◌≢◌, refl, ◌∙◌, some, List, [], ◌∷◌, ◌==◌, true, false, Bool, arith,
}
use simp_dserver.Hashmap.Balanced.{RedBlack, leaf_ok, black_ok}
use simp_dserver.Hashmap.Memory.{Ptr, null, Color, red, black, Cell, Heap, ◌>>=◌, is_red}
use simp_dserver.Hashmap.Rbtree.{insert_color_loop}
use simp_dserver.Hashmap.Search.{load-some, not_null}
use simp_dserver.Hashmap.Tree.{Tree, node, Rep, leaf_rep}
use simp_dserver.Hashmap.Zipper.Frames
use simp_dserver.Hashmap.Zipper.Frames.{linked, top_cell, top_above, at_counts}
use simp_dserver.Hashmap.Zipper.{Frame, Ctx, Zip}

abbrev is_red_color : Color → Bool
is_red_color k = elim k [ red ↦ true | black ↦ false ]

pub is_red-some :
    (m : Heap) (p : Ptr) (c : Cell)
    → p ≢ null
    → m.cells p ≡ some c
    → is_red p m ≡ some (is_red_color c.color, m)
unfolding is_red
is_red-some m p c ne at = rw (not_null p ne, ◌>>=◌, load-some m p c ne at) refl

pub black_top :
    (m : Heap) {n : ℕ} {t : Tree} {above p : Ptr}
    → RedBlack black n t
    → Rep m.cells above p t
    → is_red p m ≡ some (false, m)
unfolding is_red
black_top m leaf_ok leaf_rep = refl
black_top m {p} (black_ok x y) rep =
    let (c, ne, at, up, same, k) = top_cell rep in rw (same, is_red-some m _ c ne at, k) refl

module _ {nodes : Ptr → ℕ} {h : ℕ} {m : Heap} {x : Ptr} {kx : Color} {d : List ℕ} {ip : ℕ}
    {a b : Tree} where
  -- Below no node or a black one the loop ends.
  pub loop-top :
      (fuel : ℕ)
      → Zip nodes h m [] (node x kx d ip a b)
      → insert_color_loop (suc fuel) x h m ≡ some (tt, m)
  unfolding insert_color_loop is_red
  loop-top fuel z =
      let (c, ne, at, up, same, k) = top_cell z.tree in
      rw (◌>>=◌, load-some m x c ne at, up ∙ top_above z.path) refl

  pub loop-black :
      (fuel : ℕ) {f : Frame} {ctx : Ctx}
      → Zip nodes h m (f ∷ ctx) (node x kx d ip a b)
      → Frames.color f ≡ black
      → insert_color_loop (suc fuel) x h m ≡ some (tt, m)
  unfolding insert_color_loop
  loop-black fuel {f} z dark =
      let (c, ne, at, up, same, k) = top_cell z.tree in
      let l = linked z.path in
      rw
        (
          ◌>>=◌,
          load-some m x c ne at,
          up ∙ l.meets,
          is_red-some m (Frames.at f) l.cell l.real l.here,
          l.colored ∙ dark,
        )
        refl

pub same_ptr : (p : Ptr) → (p == p) ≡ true
same_ptr p = ground arith

pub red_top :
    (m : Heap) {above q y : Ptr} {d : List ℕ} {ip : ℕ} {a b : Tree}
    → Rep m.cells above q (node y red d ip a b)
    → (q ≡ y) × (is_red q m ≡ some (true, m))
red_top m {q} rep =
    let (c, ne, at, up, same, k) = top_cell rep in
    (same, rw (same, is_red-some m _ c ne at, k) refl)
