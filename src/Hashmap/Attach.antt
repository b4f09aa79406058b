-- ===== src/Hashmap/Attach.antt =====
-- net_hashmap_rbtree.h, `rb_link_node`: a new red node in the empty place that a descent ends at.
use simp_dserver.Prelude.{one_if, ℕ, ◌+◌, ◌≤◌, ◌<◌, ◌≡◌, ◌≢◌, refl, ◌∙◌, arith, some, [], ◌∷◌}
use simp_dserver.Hashmap.{Link, root_link, left_link, right_link, link_node}
use simp_dserver.Hashmap.Memory.{
  Ptr, null, red, Cell, Heap, Cmd, ◌>>=◌, store, set_left, set_right, set_root,
}
use simp_dserver.Hashmap.Search.{load-some}
use simp_dserver.Hashmap.Tree.{leaf, node, leaf_rep, node_rep}
use simp_dserver.Hashmap.Zipper.{
  left_of, right_of, Ctx, around, PathRep, top_rep, left_rep, right_rep, Rep-frame, PathRep-frame,
  Zip, Outside,
}
use simp_dserver.Hashmap.Zipper.Edit.{
  put, put_root, put-here, put-other, set_left-some, set_right-some,
}

-- The link that leads to a hole.
abbrev pub link_of : Ctx → Link
link_of [] = root_link
link_of (left_of p k d ip r ∷ ctx) = left_link p
link_of (right_of p k d ip l ∷ ctx) = right_link p

-- The write through the link.
abbrev attach : Link → Ptr → ℕ → Cmd (Unit {0})
attach link new h = elim link [
  | root_link ↦ set_root h new
  | left_link p ↦ set_left p new
  | right_link p ↦ set_right p new
]

root-here : (m : Heap) (h : ℕ) (p : Ptr) → (put_root h p m).roots h ≡ p
root-here m h p = ground arith

root-other : (m : Heap) (h : ℕ) (p : Ptr) (g : ℕ) → g ≢ h → (put_root h p m).roots g ≡ m.roots g
root-other m h p g ne = ground arith

attached :
    (m : Heap) (h : ℕ) (new : Ptr) {hole above : Ptr} {ctx : Ctx}
    → PathRep m.cells (m.roots h) hole above ctx
    → ((q : Ptr) → around q ctx ≤ 1)
    → (m' : Heap) × (attach (link_of ctx) new h m ≡ some (tt, m'))
      × PathRep m'.cells (m'.roots h) new above ctx
      × ((q : Ptr) → around q ctx ≡ 0 → m'.cells q ≡ m.cells q)
      × ((j : ℕ) → j ≢ h → m'.roots j ≡ m.roots j)
unfolding set_root
attached m h new (top_rep e) once =
    (put_root h new m, refl, top_rep (root-here m h new), λ q o. refl, root-other m h new)
attached m h new (left_rep {p} c there at up down sub path) once =
    let c' : Cell = record c { left = new } in
    let keep = λ (q : Ptr) (other : q ≢ p). put-other m p c' q other in
    (
      put p c' m,
      set_left-some m p c there at new,
      left_rep c' there (put-here m p c') up refl
          (Rep-frame sub (λ q i. keep q (λ e. let one = once q in ground arith)))
          (PathRep-frame path (λ q i. keep q (λ e. let one = once q in ground arith))),
      λ q o. keep q (λ e. ground arith),
      λ j o. refl,
    )
attached m h new (right_rep {p} c there at up down sub path) once =
    let c' : Cell = record c { right = new } in
    let keep = λ (q : Ptr) (other : q ≢ p). put-other m p c' q other in
    (
      put p c' m,
      set_right-some m p c there at new,
      right_rep c' there (put-here m p c') up refl
          (Rep-frame sub (λ q i. keep q (λ e. let one = once q in ground arith)))
          (PathRep-frame path (λ q i. keep q (λ e. let one = once q in ground arith))),
      λ q o. keep q (λ e. ground arith),
      λ j o. refl,
    )

-- The cell that `rb_link_node` writes.
abbrev linked_cell : Ptr → Cell → Cell
linked_cell parent c = record c { parent = parent; color = red; right = null; left = null }

-- One node more.
abbrev pub with_node : Ptr → (Ptr → ℕ) → Ptr → ℕ
with_node new nodes q = one_if q new + nodes q

pub link_node-Zip :
    {nodes : Ptr → ℕ} {h : ℕ} {m : Heap} {ctx : Ctx} (new : Ptr) (c : Cell)
    → (z : Zip nodes h m ctx leaf) → new ≢ null
    → m.cells new ≡ some c
    → nodes new ≡ 0
    → (m' : Heap) × (link_node new z.above (link_of ctx) h m ≡ some (tt, m'))
      × Zip (with_node new nodes) h m' ctx (node new red c.domain c.ipv4 leaf leaf)
      × Outside (with_node new nodes) h m m'
unfolding link_node store
link_node-Zip {nodes} {h} {m} {ctx} new c z ne at fresh =
    let c' = linked_cell z.above c in
    let m1 = put new c' m in
    let away : (q : Ptr) → 0 < around q ctx → q ≢ new =
      λ q i e. let n = z.parts q in ground arith in
    let path1 = PathRep-frame z.path (λ q i. put-other m new c' q (away q i)) in
    let (m', run, path, keep, roots) =
      attached m1 h new path1 (λ q. omega (arith, z.parts q, z.single q)) in
    let there = keep new (let n = z.parts new in omega arith) ∙ put-here m new c' in
    (
      m',
      rw (◌>>=◌, load-some m new c ne at) run,
      record {
        hole = new;
        above = z.above;
        path = path;
        tree = node_rep c' ne there refl leaf_rep leaf_rep;
        parts = λ q. omega (arith, z.parts q);
        single = λ q. let s = z.single q in ground arith;
      },
      record {
        others =
            λ q e. keep q (omega (arith, z.parts q)) ∙ put-other m new c' q (λ same. ground arith);
        roots = roots;
      },
    )
