-- ===== src/Hashmap/Rbtree/Rotate.antt =====
-- net_hashmap_rbtree.c: the end of a rotation, on a bucket with a hole.
pub mod Right
pub mod Left
use mathlib.Core.Path.{subst}
use simp_dserver.Prelude.{
  one_if, ℕ, zero, suc, ◌+◌, ◌≤◌, ◌<◌, ◌≡◌, ◌≢◌, refl, sym, ap, ◌∙◌, arith, none, some, Option,
  List, [], ◌∷◌, ◌==◌, if◌then◌else◌, true, false,
}
use simp_dserver.Hashmap.Memory.{
  Ptr, null, Color, Cell, Heap, ◌>>=◌, ◌>>◌, load, set_parent, set_left, set_right, set_root,
  unless_null, update,
}
use simp_dserver.Hashmap.Rbtree.{replace_left_first, replace_right_first, rotate_left, rotate_right}
use simp_dserver.Hashmap.Search.{load-some, not_null}
use simp_dserver.Hashmap.Tree.{Tree, leaf, node, Rep, leaf_rep, node_rep}
use simp_dserver.Hashmap.Zipper.{
  Frame, left_of, right_of, Ctx, occurs, around, PathRep, top_rep, left_rep, right_rep, Rep-frame,
  PathRep-frame, root_of, Zip, Outside,
}
use simp_dserver.Hashmap.Zipper.Edit.{
  put, put_root, put-here, put-other, set_parent-some, set_left-some, set_right-some, adopt,
  Becomes,
}

pub differs : (a b : ℕ) → a ≢ b → (a == b) ≡ false
differs a b ne = ground arith

same : (a b : ℕ) → a ≡ b → (a == b) ≡ true
same a b e = ground arith

-- A pointer that is not in a tree is not its top.
pub not_top :
    {cells : Ptr → Option Cell} {parent p : Ptr} {t : Tree} (g : Ptr)
    → Rep cells parent p t
    → g ≢ null
    → occurs g t ≡ 0
    → g ≢ p
not_top {t} g rep ne none_there e =
    let there = root_of rep (λ n. ne (e ∙ n)) in
    absurd (omega (arith, there, ap (λ x. occurs x t) e, none_there))

root-here : (m : Heap) (h : ℕ) (p : Ptr) → (put_root h p m).roots h ≡ p
root-here m h p = ground arith

root-other : (m : Heap) (h : ℕ) (p : Ptr) (g : ℕ) → g ≢ h → (put_root h p m).roots g ≡ m.roots g
root-other m h p g ne = ground arith

pub replaced_left :
    (m : Heap) (h : ℕ) (g top : Ptr) {above : Ptr} {ctx : Ctx}
    → PathRep m.cells (m.roots h) g above ctx
    → g ≢ null
    → around g ctx ≡ 0
    → ((q : Ptr) → around q ctx ≤ 1)
    → (m' : Heap) × (replace_left_first g top above h m ≡ some (tt, m'))
      × PathRep m'.cells (m'.roots h) top above ctx
      × ((q : Ptr) → around q ctx ≡ 0 → m'.cells q ≡ m.cells q)
      × ((j : ℕ) → j ≢ h → m'.roots j ≡ m.roots j)
unfolding replace_left_first set_root
replaced_left m h g top (top_rep e) ne apart once =
    (put_root h top m, refl, top_rep (root-here m h top), λ q o. refl, root-other m h top)
replaced_left m h g top (left_rep {p} c there at up down sub path) ne apart once =
    let c' : Cell = record c { left = top } in
    let keep = λ (q : Ptr) (other : q ≢ p). put-other m p c' q other in
    (
      put p c' m,
      rw (not_null p there, ◌>>=◌, load-some m p c there at, same g c.left (sym down))
          (set_left-some m p c there at top),
      left_rep c' there (put-here m p c') up refl
          (Rep-frame sub (λ q i. keep q (λ e. let one = once q in ground arith)))
          (PathRep-frame path (λ q i. keep q (λ e. let one = once q in ground arith))),
      λ q o. keep q (λ e. ground arith),
      λ j o. refl,
    )
replaced_left m h g top (right_rep {p} c there at up down sub path) ne apart once =
    let c' : Cell = record c { right = top } in
    let keep = λ (q : Ptr) (far : q ≢ p). put-other m p c' q far in
    (
      put p c' m,
      rw
          (
            not_null p there,
            ◌>>=◌,
            load-some m p c there at,
            differs g c.left (not_top g sub ne (omega (arith, apart))),
          )
          (set_right-some m p c there at top),
      right_rep c' there (put-here m p c') up refl
          (Rep-frame sub (λ q i. keep q (λ e. let one = once q in ground arith)))
          (PathRep-frame path (λ q i. keep q (λ e. let one = once q in ground arith))),
      λ q o. keep q (λ e. ground arith),
      λ j o. refl,
    )

pub replaced_right :
    (m : Heap) (h : ℕ) (g top : Ptr) {above : Ptr} {ctx : Ctx}
    → PathRep m.cells (m.roots h) g above ctx
    → g ≢ null
    → around g ctx ≡ 0
    → ((q : Ptr) → around q ctx ≤ 1)
    → (m' : Heap) × (replace_right_first g top above h m ≡ some (tt, m'))
      × PathRep m'.cells (m'.roots h) top above ctx
      × ((q : Ptr) → around q ctx ≡ 0 → m'.cells q ≡ m.cells q)
      × ((j : ℕ) → j ≢ h → m'.roots j ≡ m.roots j)
unfolding replace_right_first set_root
replaced_right m h g top (top_rep e) ne apart once =
    (put_root h top m, refl, top_rep (root-here m h top), λ q o. refl, root-other m h top)
replaced_right m h g top (right_rep {p} c there at up down sub path) ne apart once =
    let c' : Cell = record c { right = top } in
    let keep = λ (q : Ptr) (other : q ≢ p). put-other m p c' q other in
    (
      put p c' m,
      rw (not_null p there, ◌>>=◌, load-some m p c there at, same g c.right (sym down))
          (set_right-some m p c there at top),
      right_rep c' there (put-here m p c') up refl
          (Rep-frame sub (λ q i. keep q (λ e. let one = once q in ground arith)))
          (PathRep-frame path (λ q i. keep q (λ e. let one = once q in ground arith))),
      λ q o. keep q (λ e. ground arith),
      λ j o. refl,
    )
replaced_right m h g top (left_rep {p} c there at up down sub path) ne apart once =
    let c' : Cell = record c { left = top } in
    let keep = λ (q : Ptr) (far : q ≢ p). put-other m p c' q far in
    (
      put p c' m,
      rw
          (
            not_null p there,
            ◌>>=◌,
            load-some m p c there at,
            differs g c.right (not_top g sub ne (omega (arith, apart))),
          )
          (set_left-some m p c there at top),
      left_rep c' there (put-here m p c') up refl
          (Rep-frame sub (λ q i. keep q (λ e. let one = once q in ground arith)))
          (PathRep-frame path (λ q i. keep q (λ e. let one = once q in ground arith))),
      λ q o. keep q (λ e. ground arith),
      λ j o. refl,
    )
