-- ===== src/Hashmap/Rbtree/Settle.antt =====
-- net_hashmap_rbtree.c, `rb_insert_color`: the loop ends, and the tree is red-black again.
use simp_dserver.Prelude.{ℕ, zero, suc, ◌<◌, refl, ◌∙◌, arith, List, append_assoc, length}
use simp_dserver.Hashmap.Balanced.{
  RedBlack, red_ok, black_ok, Fits, at_top, red_left, red_right, black_left, black_right,
  inorder-plug,
}
use simp_dserver.Hashmap.Memory.{Ptr, red, black, Heap, ◌>>=◌, ◌>>◌}
use simp_dserver.Hashmap.Rbtree.{insert_color_loop}
use simp_dserver.Hashmap.Rbtree.Repair.{
  recolor_left-Zip, recolor_right-Zip, rotate_case_left-inner, rotate_case_left-outer,
  rotate_case_right-inner, rotate_case_right-outer,
}
use simp_dserver.Hashmap.Rbtree.Tops.{loop-top, loop-black}
use simp_dserver.Hashmap.Rbtree.Steps.{loop-left-red, loop-right-red}
use simp_dserver.Hashmap.Tree.{Tree, node}
use simp_dserver.Hashmap.Zipper.{Ctx, Zip, Outside-refl, up_left, up_right}
use simp_dserver.Hashmap.Rbtree.Turned.{
  Settled, Settled-here, Settled-after, turned_left, turned_right,
}

-- The loop at a red node that stands for a black subtree, and with fuel beyond the nodes above.
pub insert_color_loop-Settled :
    (fuel : ℕ) {nodes : Ptr → ℕ} {h : ℕ} {m : Heap} {ctx : Ctx} {x : Ptr} {d : List ℕ} {ip n : ℕ}
    {a b : Tree}
    → length ctx < fuel
    → Zip nodes h m ctx (node x red d ip a b)
    → RedBlack red n (node x red d ip a b)
    → Fits black n ctx
    → Settled nodes h (insert_color_loop fuel x h) m ctx (node x red d ip a b)
insert_color_loop-Settled zero enough z b fit = absurd (omega arith)
insert_color_loop-Settled (suc fuel) {m} {x} {d} {ip} {n} {a} {b = r} enough z b at_top = record {
  after = m;
  result = node x red d ip a r;
  ends = loop-top fuel z;
  zip = z;
  color = red;
  depth = n;
  balanced = b;
  ordered = refl;
  outside = Outside-refl m;
}
insert_color_loop-Settled (suc fuel) enough z b (black_left s fit) =
    Settled-here (loop-black fuel z refl) z (black_left s fit) b
insert_color_loop-Settled (suc fuel) enough z b (black_right s fit) =
    Settled-here (loop-black fuel z refl) z (black_right s fit) b
insert_color_loop-Settled (suc fuel) {h} enough z b
      (red_left s (black_left {j = red} {p = g} {ctx} (red_ok c e) fit)) =
    let (m1, run, z1, out) = recolor_left-Zip (up_left (up_left z)) in
    Settled-after {run1 = insert_color_loop fuel g h}
      (loop-left-red fuel z refl ∙ rw (◌>>◌, ◌>>=◌, run) refl) out (inorder-plug ctx _ _ refl)
      (insert_color_loop-Settled fuel (omega arith) z1 (red_ok (black_ok b s) (black_ok c e)) fit)
insert_color_loop-Settled (suc fuel) {h} enough z b
      (red_left s (black_right {j = red} {p = g} {ctx} (red_ok c e) fit)) =
    let (m1, run, z1, out) = recolor_right-Zip (up_right (up_left z)) in
    Settled-after {run1 = insert_color_loop fuel g h}
      (loop-right-red fuel z refl ∙ rw (◌>>◌, ◌>>=◌, run) refl) out (inorder-plug ctx _ _ refl)
      (insert_color_loop-Settled fuel (omega arith) z1 (red_ok (black_ok c e) (black_ok b s)) fit)
insert_color_loop-Settled (suc fuel) {h} enough z b
      (red_right s (black_left {j = red} {p = g} {ctx} (red_ok c e) fit)) =
    let (m1, run, z1, out) = recolor_left-Zip (up_left (up_right z)) in
    Settled-after {run1 = insert_color_loop fuel g h}
      (loop-left-red fuel z refl ∙ rw (◌>>◌, ◌>>=◌, run) refl) out (inorder-plug ctx _ _ refl)
      (insert_color_loop-Settled fuel (omega arith) z1 (red_ok (black_ok s b) (black_ok c e)) fit)
insert_color_loop-Settled (suc fuel) {h} enough z b
      (red_right s (black_right {j = red} {p = g} {ctx} (red_ok c e) fit)) =
    let (m1, run, z1, out) = recolor_right-Zip (up_right (up_right z)) in
    Settled-after {run1 = insert_color_loop fuel g h}
      (loop-right-red fuel z refl ∙ rw (◌>>◌, ◌>>=◌, run) refl) out (inorder-plug ctx _ _ refl)
      (insert_color_loop-Settled fuel (omega arith) z1 (red_ok (black_ok c e) (black_ok s b)) fit)
insert_color_loop-Settled (suc zero) enough z b (red_left s (black_left {j = black} u fit)) =
    absurd (omega arith)
insert_color_loop-Settled (suc zero) enough z b (red_left s (black_right {j = black} u fit)) =
    absurd (omega arith)
insert_color_loop-Settled (suc zero) enough z b (red_right s (black_left {j = black} u fit)) =
    absurd (omega arith)
insert_color_loop-Settled (suc zero) enough z b (red_right s (black_right {j = black} u fit)) =
    absurd (omega arith)
insert_color_loop-Settled (suc (suc fuel)) enough z b (red_left s (black_left {j = black} u fit)) =
    turned_left fuel z refl u (rotate_case_left-outer (up_left (up_left z))) (simp append_assoc) fit
      (black_ok b (red_ok s u))
insert_color_loop-Settled (suc (suc fuel)) enough z (red_ok b c)
      (red_left s (black_right {j = black} u fit)) =
    turned_right fuel z refl u (rotate_case_right-inner (up_right (up_left z))) (simp append_assoc)
      fit (black_ok (red_ok u b) (red_ok c s))
insert_color_loop-Settled (suc (suc fuel)) enough z (red_ok b c)
      (red_right s (black_left {j = black} u fit)) =
    turned_left fuel z refl u (rotate_case_left-inner (up_left (up_right z))) (simp append_assoc)
      fit (black_ok (red_ok s b) (red_ok c u))
insert_color_loop-Settled (suc (suc fuel)) enough z b
      (red_right s (black_right {j = black} u fit)) =
    turned_right fuel z refl u (rotate_case_right-outer (up_right (up_right z))) (simp append_assoc)
      fit (black_ok (red_ok u s) b)
