-- ===== src/Hashmap/Rbtree/Balance.antt =====
-- net_hashmap_rbtree.c, `rb_insert_color`: the tree with its new node is red-black again.
use simp_dserver.Prelude.{ℕ, suc, ◌<◌, ◌≡◌, refl, ◌∙◌, arith, some, List, [], length}
use simp_dserver.Hashmap.Balanced.{RedBlack, red_ok, black_ok, Fits, inorder}
use simp_dserver.Hashmap.Memory.{Ptr, Color, red, black, Heap, ◌>>=◌, ◌>>◌, get_root, set_color}
use simp_dserver.Hashmap.Rbtree.{insert_color}
use simp_dserver.Hashmap.Tree.{Tree, leaf, node}
use simp_dserver.Hashmap.Zipper.Edit.{set_color-Zip}
use simp_dserver.Hashmap.Zipper.Frames.{top_cell, root_top}
use simp_dserver.Hashmap.Zipper.{Ctx, Zip, Outside, Outside-trans, up}
use simp_dserver.Hashmap.Rbtree.Settle.{insert_color_loop-Settled}
use simp_dserver.Hashmap.Rbtree.Turned.{Settled}

blacken :
    {k : Color} {n : ℕ} {p : Ptr} {j : Color} {d : List ℕ} {ip : ℕ} {a b : Tree}
    → RedBlack k n (node p j d ip a b)
    → (n' : ℕ) × RedBlack black n' (node p black d ip a b)
blacken (red_ok {n} l r) = (suc n, black_ok l r)
blacken (black_ok {n} l r) = (suc n, black_ok l r)

-- The last two calls of `rb_insert_color`: the root becomes black.
paint :
    {nodes : Ptr → ℕ} {h : ℕ} {m : Heap} (t : Tree) (x : Ptr) {k : Color} {n : ℕ}
    → Zip nodes h m [] t
    → 0 < nodes x
    → RedBlack k n t
    → (m' : Heap) × (t' : Tree) × ((do top ← get_root h; set_color top black) m ≡ some (tt, m'))
      × Zip nodes h m' [] t'
      × ((n' : ℕ) × RedBlack black n' t')
      × (inorder t' ≡ inorder t)
      × Outside nodes h m m'
unfolding get_root
paint leaf x z in_it b = absurd (let e = z.parts x in omega arith)
paint {h} {m} (node p k d ip l r) x z in_it b =
    let (m', run, z', out) = set_color-Zip z black in
    let (c, ne, there, up, same, j) = top_cell z.tree in
    (m', node p black d ip l r, rw (◌>>=◌, root_top z.path ∙ same) run, z', blacken b, refl, out)

-- Called at a red node `x` whose tree is red-black, in a hole of a red-black tree that takes a black
-- tree with as many black nodes, and with more fuel than there are nodes above the hole,
-- `rb_insert_color` ends without a fault. The bucket then represents a red-black tree with a black
-- root, of the same domains in the same order and on the same nodes; all other cells and the roots of
-- the other buckets stay.
pub insert_color-Settled :
    (fuel : ℕ) {nodes : Ptr → ℕ} {h : ℕ} {m : Heap} {ctx : Ctx} {x : Ptr} {d : List ℕ} {ip n : ℕ}
    {a b : Tree}
    → length ctx < fuel
    → Zip nodes h m ctx (node x red d ip a b)
    → RedBlack red n (node x red d ip a b)
    → Fits black n ctx
    → (s : Settled nodes h (insert_color fuel x h) m ctx (node x red d ip a b)) × (s.color ≡ black)
unfolding insert_color
insert_color-Settled fuel {nodes} {h} {x} enough z b fit =
    let s = insert_color_loop-Settled fuel enough z b fit in
    let in_it : 0 < nodes x = let e = z.parts x in ground arith in
    let (m', t', run, z', (n', b'), order, out) = paint s.result x s.zip in_it s.balanced in
    (
      record {
        after = m';
        result = t';
        ends = rw (◌>>=◌, ◌>>◌, s.ends) run;
        zip = z';
        color = black;
        depth = n';
        balanced = b';
        ordered = order ∙ s.ordered;
        outside = Outside-trans s.outside out;
      },
      refl,
    )
