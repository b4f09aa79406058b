-- ===== src/Hashmap/Rbtree/Inverse.antt =====
-- net_hashmap_rbtree.c: the two rotations undo one another.
use simp_dserver.Prelude.{ℕ, List}
use simp_dserver.Hashmap.Memory.{Ptr, Color, Heap, ◌>>=◌, ◌>>◌}
use simp_dserver.Hashmap.Rbtree.{rotate_left, rotate_right}
use simp_dserver.Hashmap.Rbtree.Rotate.Left.{rotate_left-Zip}
use simp_dserver.Hashmap.Rbtree.Rotate.Right.{rotate_right-Zip}
use simp_dserver.Hashmap.Tree.{Tree, node}
use simp_dserver.Hashmap.Zipper.{Ctx, Zip, Outside-trans}
use simp_dserver.Hashmap.Zipper.Edit.{Becomes}

-- In a bucket that represents a tree, a rotation to the left at any node with a right child, and then
-- one to the right at that child, end without a fault; the bucket represents the same tree again, and
-- other cells and the roots of other buckets stay.
pub rotate_right-rotate_left :
    {nodes : Ptr → ℕ} {h : ℕ} {m : Heap} {ctx : Ctx} {g r : Ptr} {k j : Color} {d e : List ℕ}
    {ip jp : ℕ} {a b c : Tree}
    → Zip nodes h m ctx (node g k d ip a (node r j e jp b c))
    → Becomes nodes h
        (do rotate_left g h; rotate_right r h)
        m
        ctx
        (node g k d ip a (node r j e jp b c))
rotate_right-rotate_left z =
    let (m1, run1, z1, o1) = rotate_left-Zip z in
    let (m2, run2, z2, o2) = rotate_right-Zip z1 in
    (m2, rw (◌>>◌, ◌>>=◌, run1) run2, z2, Outside-trans o1 o2)
