-- ===== src/Hashmap/Walk/Ends.antt =====
-- net_hashmap_rbtree.c, `rb_first` and `rb_last`: the ends of the tree.
use simp_dserver.Prelude.{
  ℕ, zero, suc, ◌<◌, ◌≡◌, ◌≢◌, refl, sym, ap, ◌⊎◌, inl, inr, arith, some, true, false, Option, ◌==◌,
}
use simp_dserver.Hashmap.Memory.{Ptr, null, Cell, Heap, ◌>>=◌, get_root}
use simp_dserver.Hashmap.Tree.{Tree, leaf, node, height, Rep, leaf_rep, node_rep}
use simp_dserver.Hashmap.Search.{load-some}
use simp_dserver.Hashmap.Walk.{leftmost, rightmost, first, last}

-- The outermost node on a side, and `p` for an empty tree.
abbrev pub first_node : Tree → Ptr → Ptr
first_node leaf p = p
first_node (node q k d ip l r) p = first_node l q

abbrev pub last_node : Tree → Ptr → Ptr
last_node leaf p = p
last_node (node q k d ip l r) p = last_node r q

null-leaf :
    {cells : Ptr → Option Cell} {parent p : Ptr} {t : Tree}
    → Rep cells parent p t
    → p ≡ null
    → t ≡ leaf
null-leaf leaf_rep e = refl
null-leaf (node_rep c ne at up lrep rrep) e = absurd (ne e)

null_cases : (p : Ptr) → ((p == null) ≡ true) × (p ≡ null) ⊎ ((p == null) ≡ false) × (p ≢ null)
null_cases p = ground arith

leftmost-first_node :
    (fuel : ℕ) (m : Heap) (q : Ptr) {parent p : Ptr} {t : Tree}
    → Rep m.cells parent p t
    → p ≢ null
    → height t < fuel
    → leftmost fuel p m ≡ some (first_node t q, m)
unfolding leftmost
leftmost-first_node zero m q rep ne enough = absurd (omega arith)
leftmost-first_node (suc f) m q leaf_rep ne enough = absurd (ne refl)
leftmost-first_node (suc f) m q {p = p} (node_rep {l} {r} c _ at up lrep rrep) ne enough =
    elim (null_cases (c.left)) [
      | inl (test, none_left) ↦
          rw (◌>>=◌, load-some m p c ne at, test)
            (ap (λ t. some (first_node t p, m)) (sym (null-leaf lrep none_left)))
      | inr (test, there) ↦
          rw (◌>>=◌, load-some m p c ne at, test)
            (leftmost-first_node f m p lrep there (ground arith))
    ]

rightmost-last_node :
    (fuel : ℕ) (m : Heap) (q : Ptr) {parent p : Ptr} {t : Tree}
    → Rep m.cells parent p t
    → p ≢ null
    → height t < fuel
    → rightmost fuel p m ≡ some (last_node t q, m)
unfolding rightmost
rightmost-last_node zero m q rep ne enough = absurd (omega arith)
rightmost-last_node (suc f) m q leaf_rep ne enough = absurd (ne refl)
rightmost-last_node (suc f) m q {p = p} (node_rep {l} {r} c _ at up lrep rrep) ne enough =
    elim (null_cases (c.right)) [
      | inl (test, none_right) ↦
          rw (◌>>=◌, load-some m p c ne at, test)
            (ap (λ t. some (last_node t p, m)) (sym (null-leaf rrep none_right)))
      | inr (test, there) ↦
          rw (◌>>=◌, load-some m p c ne at, test)
            (rightmost-last_node f m p rrep there (ground arith))
    ]

-- In a bucket that represents a tree, `rb_first` and `rb_last`, with more fuel than its height, give
-- the outermost node on the left and on the right, NULL for an empty tree, and change nothing.
pub ends_lem :
    (fuel h : ℕ) (m : Heap) (t : Tree)
    → Rep m.cells null (m.roots h) t
    → height t < fuel
    → (first fuel h m ≡ some (first_node t null, m)) × (last fuel h m ≡ some (last_node t null, m))
unfolding first last get_root
ends_lem fuel h m t rep enough = elim (null_cases (m.roots h)) [
  | inl (test, empty) ↦ (
    rw test (ap (λ t. some (first_node t null, m)) (sym (null-leaf rep empty))),
    rw test (ap (λ t. some (last_node t null, m)) (sym (null-leaf rep empty))),
  )
  | inr (test, there) ↦ (
    rw test (leftmost-first_node fuel m null rep there enough),
    rw test (rightmost-last_node fuel m null rep there enough),
  )
]
