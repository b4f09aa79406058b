-- ===== src/Hashmap/Tests/Growth.antt =====
-- Insertion at a concrete bucket and from an empty map.
use simp_dserver.Prelude.{ℕ, ◌+◌, ◌≡◌, refl, arith, true, false, none, some, List, [], ◌∷◌}
use simp_dserver.Hashmap.{init, new_cell, lookup}
use simp_dserver.Hashmap.Attach.{with_node, link_node-Zip}
use simp_dserver.Hashmap.Balanced.{leaf_ok, red_ok, black_ok, at_top, red_left, black_left}
use simp_dserver.Hashmap.Insert.{Bucket, Inserted, inside_insert-Inserted}
use simp_dserver.Hashmap.Memory.{Ptr, null, red, black, Heap, ◌>>◌}
use simp_dserver.Hashmap.Rbtree.{rotate_left, rotate_right, insert_color}
use simp_dserver.Hashmap.Rbtree.Balance.{insert_color-Settled}
use simp_dserver.Hashmap.Rbtree.Inverse.{rotate_right-rotate_left}
use simp_dserver.Hashmap.Rbtree.Turned.{Settled}
use simp_dserver.Hashmap.Table.{init-Table, lookup_refines}
use simp_dserver.Hashmap.Table.Add.{Added, insert_refines}
use simp_dserver.Hashmap.Table.Put.{put_new}
use simp_dserver.Hashmap.Table.Session.{Call, insert_all, session_lem}
use simp_dserver.Hashmap.Tests.{
  start, bucket, bucket-Rep, tree_a, tree_b, tree_ordered, letter, name_a, name_b, name_c,
}
use simp_dserver.Hashmap.Tree.{leaf, node, Holds}
use simp_dserver.Hashmap.Zipper.{Ctx, left_of, occurs, Zip, top_rep, down_left}
use simp_dserver.Hashmap.Zipper.Edit.{Becomes}

-- The three nodes of the bucket.
abbrev three : Ptr → ℕ
three q = occurs q tree_b + 0

bucket_zip : Zip three 0 bucket [] tree_b
bucket_zip = record {
  hole = 2;
  above = null;
  path = top_rep refl;
  tree = bucket-Rep;
  parts = λ q. refl;
  single = λ q. ground arith;
}

bucket_Bucket : Bucket three 0 bucket tree_b
bucket_Bucket = record {
  zip = bucket_zip;
  depth = 1;
  balanced = black_ok (red_ok leaf_ok leaf_ok) (red_ok leaf_ok leaf_ok);
  searches = tree_ordered;
}

rotate_right-rotate_left_example :
    Becomes three 0 (do rotate_left 2 0; rotate_right 1 0) bucket [] tree_b
rotate_right-rotate_left_example = rotate_right-rotate_left bucket_zip

-- The node 4 has a greater domain than the others.
name_d_free : (ip : ℕ) → ¬ Holds tree_b (b'd' ∷ []) ip
name_d_free ip h = ground arith

inside_insert-Inserted_example : Inserted three 0 3 4 (new_cell (b'd' ∷ []) 1 14) bucket tree_b
unfolding new_cell
inside_insert-Inserted_example =
    inside_insert-Inserted 3 0 4 (new_cell (b'd' ∷ []) 1 14) bucket tree_b bucket_Bucket
      (omega arith) refl refl (letter b'd' (omega arith) (omega arith)) name_d_free (omega arith)

-- The empty place for it, and the bucket with the red node 4 below the red node 3.
abbrev place : Ctx
place = left_of 3 red name_c 13 leaf ∷ left_of 2 black name_b 12 tree_a ∷ []

place_zip : Zip three 0 bucket place leaf
place_zip = down_left (down_left bucket_zip)

joined : (m : Heap) × Zip (with_node 4 three) 0 m place (node 4 red (b'd' ∷ []) 14 leaf leaf)
unfolding new_cell
joined =
    let (m, run, z, out) =
      link_node-Zip 4 (new_cell (b'd' ∷ []) 1 14) place_zip (omega arith) refl refl in
    (m, z)

insert_color-Settled_example :
    (s : Settled
      (with_node 4 three)
      0
      (insert_color 3 4 0)
      (joined.0)
      place
      (node 4 red (b'd' ∷ []) 14 leaf leaf))
    × (s.color ≡ black)
insert_color-Settled_example =
    insert_color-Settled 3 (omega arith) (joined.1) (red_ok leaf_ok leaf_ok)
      (red_left leaf_ok (black_left (red_ok leaf_ok leaf_ok) at_top))

insert_refines_example : Added (λ h q. 0) 0 2 1 name_a 11 (init start) (λ d. none)
insert_refines_example =
    insert_refines 2 1 name_a 11 (init start) (λ d. none) (init-Table start) (omega arith)
      (λ h. refl) (omega arith) (letter b'a' (omega arith) (omega arith))

-- The map after one insertion.
one_host : Added (λ h q. 0) 0 2 1 name_a 11 (init start) (λ d. none)
one_host =
    insert_refines 2 1 name_a 11 (init start) (λ d. none) (init-Table start) (omega arith)
      (λ h. refl) (omega arith) (letter b'a' (omega arith) (omega arith))

lookup_refines_example : lookup 4 name_a 1 (one_host.after) ≡ some (11, one_host.after)
lookup_refines_example =
    lookup_refines 2 (one_host.after) (put_new (λ d. none) name_a 11) name_a (one_host.table)
      (omega arith) (letter b'a' (omega arith) (omega arith))

-- Two domains, and one of them again with another address.
abbrev calls : List Call
calls =
    record { fresh = 1; domain = name_a; ipv4 = 11 }
    ∷ record { fresh = 2; domain = name_b; ipv4 = 12 }
    ∷ record { fresh = 3; domain = name_a; ipv4 = 13 }
    ∷ []

session_lem_example :
    (m' : Heap) × (insert_all 6 calls (init start) ≡ some (true ∷ true ∷ false ∷ [], m'))
    × (lookup 6 name_a 1 m' ≡ some (11, m'))
session_lem_example =
    session_lem 3 calls start name_a
      (
        omega arith,
        letter b'a' (omega arith) (omega arith),
        (omega arith, (omega arith, tt)),
        (
          omega arith,
          letter b'b' (omega arith) (omega arith),
          (omega arith, tt),
          (omega arith, letter b'a' (omega arith) (omega arith), tt, tt),
        ),
      )
      (omega arith) (letter b'a' (omega arith) (omega arith))
