-- ===== src/Hashmap/Rbtree/Rotate/Right.antt =====
-- net_hashmap_rbtree.c: what a rotation to the right does to a bucket with a hole.
use mathlib.Core.Path.{subst}
use simp_dserver.Prelude.{ℕ, ◌+◌, ◌≤◌, ◌≡◌, ◌≢◌, refl, sym, ap, ◌∙◌, arith, some, List}
use simp_dserver.Hashmap.Memory.{
  Ptr, null, Color, Cell, Heap, Cmd, ◌>>=◌, ◌>>◌, set_parent, set_left, set_right, unless_null,
}
use simp_dserver.Hashmap.Rbtree.{replace_right_first, rotate_right}
use simp_dserver.Hashmap.Rbtree.Rotate.{replaced_right}
use simp_dserver.Hashmap.Search.{load-some}
use simp_dserver.Hashmap.Tree.{Tree, node, Rep, node_rep}
use simp_dserver.Hashmap.Zipper.{Ctx, occurs, around, PathRep, Rep-frame, PathRep-frame, Zip}
use simp_dserver.Hashmap.Zipper.Edit.{
  put, put-here, put-other, set_parent-some, set_left-some, set_right-some, adopt, Becomes,
}

-- The node `p` as it is while the other takes its place, and that other node `l`.
abbrev lowered : Cell → Cell → Cell
lowered cg cl = record cg { left = cl.right }

abbrev lifted : Ptr → Cell → Cell → Cell
lifted p cg cl = record cl { right = p; parent = cg.parent }

-- The first four writes: the inner subtree `b` changes its parent, and `l` its links.
lift :
    (m : Heap) (p l : Ptr) (cg cl : Cell) {b : Tree}
    → p ≢ null
    → l ≢ null
    → l ≢ p
    → m.cells p ≡ some cg
    → m.cells l ≡ some cl
    → Rep m.cells l cl.right b
    → occurs p b ≡ 0
    → occurs l b ≡ 0
    → ((q : Ptr) → occurs q b ≤ 1)
    → (m4 : Heap) × ((rest : Cmd (Unit {0}))
        → (do
          set_left p cl.right
          unless_null cl.right (set_parent cl.right p)
          set_right l p
          set_parent l cg.parent
          rest)
            m
          ≡ rest m4)
      × ((m4.cells p ≡ some (lowered cg cl)) × (m4.cells l ≡ some (lifted p cg cl)))
      × Rep m4.cells p cl.right b
      × ((q : Ptr) → q ≢ p → q ≢ l → occurs q b ≡ 0 → m4.cells q ≡ m.cells q)
      × ((j : ℕ) → m4.roots j ≡ m.roots j)
lift m p l cg cl ne ne2 l_ne at at2 rb apart apart_l once =
    let g1 = lowered cg cl in
    let m1 = put p g1 m in
    let rb1 = Rep-frame rb (λ q i. put-other m p g1 q (λ e. ground arith)) in
    let (m2, run2, rb2, keep2, roots2) = adopt m1 p rb1 once in
    let l2 : m2.cells l ≡ some cl = keep2 l apart_l ∙ put-other m p g1 l l_ne ∙ at2 in
    let c3 : Cell = record cl { right = p } in
    let m3 = put l c3 m2 in
    let c4 = lifted p cg cl in
    let keep : (q : Ptr) → q ≢ l → (put l c4 m3).cells q ≡ m2.cells q =
      λ q n. put-other m3 l c4 q n ∙ put-other m2 l c3 q n in
    (
      put l c4 m3,
      λ rest.
          rw
            (
              ◌>>=◌,
              set_left-some m p cg ne at cl.right,
              run2,
              set_right-some m2 l cl ne2 l2 p,
              set_parent-some m3 l c3 ne2 (put-here m2 l c3) cg.parent,
            )
            refl,
      (keep p (λ e. l_ne (sym e)) ∙ keep2 p apart ∙ put-here m p g1, put-here m3 l c4),
      Rep-frame rb2 (λ q i. keep q (λ e. ground arith)),
      λ q n1 n2 n3. keep q n2 ∙ keep2 q n3 ∙ put-other m p g1 q n1,
      roots2,
    )

rotated :
    (m : Heap) (h : ℕ) {hole above g l : Ptr} {k k' : Color} {d d' : List ℕ} {ip ip' : ℕ}
    {a b r : Tree} {ctx : Ctx}
    → PathRep m.cells (m.roots h) hole above ctx
    → Rep m.cells above hole (node g k d ip (node l k' d' ip' a b) r)
    → ((q : Ptr) → occurs q (node g k d ip (node l k' d' ip' a b) r) + around q ctx ≤ 1)
    → (m' : Heap) × (rotate_right g h m ≡ some (tt, m'))
      × PathRep m'.cells (m'.roots h) l above ctx
      × Rep m'.cells above l (node l k' d' ip' a (node g k d ip b r))
      × ((q : Ptr)
          → occurs q (node g k d ip (node l k' d' ip' a b) r) + around q ctx ≡ 0
          → m'.cells q ≡ m.cells q)
      × ((j : ℕ) → j ≢ h → m'.roots j ≡ m.roots j)
unfolding rotate_right
rotated m h {above} {b} {ctx} path (node_rep {p} cg ne at up (node_rep cl ne2 at2 up2 ra rb) rr)
      once =
    let l = cg.left in
    let apart = once p in
    let apart_l = once l in
    let l_ne : l ≢ p = λ e. ground arith in
    let (m4, run4, (g4, l4), rb4, keep4, roots4) =
      lift m p l cg cl ne ne2 l_ne at at2 rb (ground arith) (ground arith)
        (λ q. omega (arith, once q)) in
    let path4 =
      subst (λ root. PathRep m4.cells root p above ctx) (sym (roots4 h))
        (PathRep-frame path (λ q i.
          let one = once q in keep4 q (λ e. ground arith) (λ e. ground arith) (omega arith))) in
    let (m5, run5, path5, keep5, roots5) =
      replaced_right m4 h p l path4 ne (ground arith) (λ q. omega (arith, once q)) in
    let g5 = keep5 p (ground arith) ∙ g4 in
    let cg' : Cell = record (lowered cg cl) { parent = l } in
    let cl' = lifted p cg cl in
    let keep6 : (q : Ptr) → q ≢ p → around q ctx ≡ 0 → (put p cg' m5).cells q ≡ m4.cells q =
      λ q n1 n2. put-other m5 p cg' q n1 ∙ keep5 q n2 in
    let l6 = keep6 l l_ne (ground arith) ∙ l4 in
    let keep : (q : Ptr)
        → q ≢ p
        → q ≢ l
        → occurs q b ≡ 0
        → around q ctx ≡ 0
        → (put p cg' m5).cells q ≡ m.cells q =
      λ q n1 n2 n3 n4. keep6 q n1 n4 ∙ keep4 q n1 n2 n3 in
    let ra' = Rep-frame ra (λ q i.
      let one = once q in
      keep q (λ e. ground arith) (λ e. ground arith) (omega arith) (omega arith)) in
    let rr' = Rep-frame rr (λ q i.
      let one = once q in
      keep q (λ e. ground arith) (λ e. ground arith) (omega arith) (omega arith)) in
    let rb' =
      Rep-frame rb4 (λ q i. let one = once q in keep6 q (λ e. ground arith) (omega arith)) in
    (
      put p cg' m5,
      rw
          (
            ◌>>=◌,
            load-some m p cg ne at,
            load-some m l cl ne2 at2,
            run4 (replace_right_first p l cg.parent h >> set_parent p l),
            ap (λ x. replace_right_first p l x h m4) up ∙ run5,
            set_parent-some m5 p (lowered cg cl) ne g5 l,
          )
          refl,
      PathRep-frame path5 (λ q i. let one = once q in put-other m5 p cg' q (λ e. ground arith)),
      (node_rep cl' ne2 l6 up ra' (node_rep cg' ne (put-here m5 p cg') refl rb' rr')),
      λ q none_there.
          keep q (λ e. ground arith) (λ e. ground arith) (omega (arith, none_there))
            (omega (arith, none_there)),
      λ j ne_h. roots5 j ne_h ∙ roots4 j,
    )

-- A rotation to the right lifts the left child of the node; the nodes stay the same.
pub rotate_right-Zip :
    {nodes : Ptr → ℕ} {h : ℕ} {m : Heap} {ctx : Ctx} {g l : Ptr} {k k' : Color} {d d' : List ℕ}
    {ip ip' : ℕ} {a b r : Tree}
    → Zip nodes h m ctx (node g k d ip (node l k' d' ip' a b) r)
    → Becomes nodes h (rotate_right g h) m ctx (node l k' d' ip' a (node g k d ip b r))
rotate_right-Zip {h} {m} {l} z =
    let (m', run, path, tree, others, roots) =
      rotated m h z.path z.tree (λ q. omega (arith, z.parts q, z.single q)) in
    (
      m',
      run,
      record {
        hole = l;
        above = z.above;
        path = path;
        tree = tree;
        parts = λ q. omega (arith, z.parts q);
        single = z.single;
      },
      record { others = λ q e. others q (z.parts q ∙ e); roots = roots },
    )
