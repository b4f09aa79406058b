-- ===== src/Hooks/Ops/Tests.antt =====
-- Two lists, runs of the operations on them, and the theorems at the first.
use simp_dserver.Prelude.{◌≡◌, refl, Option, some, List, [], ◌∷◌, ◌++◌, arith, ◌==◌, if◌then◌else◌}
use simp_dserver.Prelude.Faults.{◌>>=◌}
use simp_dserver.Hashmap.Memory.{Ptr}
use simp_dserver.Hooks.{
  Hooks, get_next, get_prev, set_next, set_prev, init_list_head, list_add, list_del, join,
  list_empty,
}
use simp_dserver.Hooks.Chain.{Represents}
use simp_dserver.Hooks.Ops.{
  for_each, for_each_prev, each_from, each_back_from, del_entry, for_each_safe, list_move,
  list_move_tail, list_replace_init, list_is_singular, list_cut_position, list_splice_init,
  list_splice_tail_init,
}
use simp_dserver.Hooks.Ops.Loops.{for_each_safe-list_del}
use simp_dserver.Hooks.Ops.Move.{list_move_tail-Represents}

-- The list at 1 has the entries 2, 3 and 4, the list at 5 has 6 and 7.
abbrev pub lists : Hooks
lists = record {
  next = λ p.
      if p == 4
      then 1
      else if p == 5
      then 6
      else if p == 6
      then 7
      else if p == 7
      then 5
      else if p == 1
      then 2
      else if p == 2
      then 3
      else 4;
  prev = λ p.
      if p == 1
      then 4
      else if p == 5
      then 7
      else if p == 6
      then 5
      else if p == 7
      then 6
      else if p == 2
      then 1
      else if p == 3
      then 2
      else 3;
}

abbrev both : Hooks → Option (List Ptr × List Ptr × List Ptr)
both m = do
  one ← for_each 9 1 m
  back ← for_each_prev 9 1 m
  two ← for_each 9 5 m
  some (one, back, two)

splice_test :
    (do m ← list_splice_init 5 1 lists; both m)
    ≡ some (6 ∷ 7 ∷ 2 ∷ 3 ∷ 4 ∷ [], 4 ∷ 3 ∷ 2 ∷ 7 ∷ 6 ∷ [], [])
unfolding list_splice_init for_each for_each_prev each_from each_back_from list_empty get_next
    get_prev set_next set_prev init_list_head
splice_test = refl

splice_tail_test :
    (do m ← list_splice_tail_init 5 1 lists; both m)
    ≡ some (2 ∷ 3 ∷ 4 ∷ 6 ∷ 7 ∷ [], 7 ∷ 6 ∷ 4 ∷ 3 ∷ 2 ∷ [], [])
unfolding list_splice_tail_init for_each for_each_prev each_from each_back_from list_empty get_next
    get_prev set_next set_prev init_list_head
splice_tail_test = refl

cut_test : (do m ← list_cut_position 5 1 3 lists; both m) ≡ some (4 ∷ [], 4 ∷ [], 2 ∷ 3 ∷ [])
unfolding list_cut_position list_is_singular for_each for_each_prev each_from each_back_from
    list_empty get_next get_prev set_next set_prev init_list_head
cut_test = refl

replace_test :
    (do m ← list_replace_init 3 9 lists; m ← list_move 4 5 m; both m)
    ≡ some (2 ∷ 9 ∷ [], 9 ∷ 2 ∷ [], 4 ∷ 6 ∷ 7 ∷ [])
unfolding list_replace_init list_move del_entry for_each for_each_prev each_from each_back_from
    list_empty get_next get_prev set_next set_prev init_list_head join list_add
replace_test = refl

pub lists-Represents : Represents lists 1 (2 ∷ 3 ∷ 4 ∷ [])
lists-Represents = (
  (refl, refl, (refl, refl, (refl, refl, (refl, refl, tt)))),
  (
    (omega arith, (omega arith, (omega arith, tt))),
    ((omega arith, (omega arith, tt)), ((omega arith, tt), (tt, tt))),
  ),
  (omega arith, (omega arith, (omega arith, (omega arith, tt)))),
)

for_each_safe-list_del_example :
    (m' : Hooks) × (for_each_safe 4 1 list_del lists ≡ some m') × Represents m' 1 []
for_each_safe-list_del_example =
    for_each_safe-list_del lists 1 (2 ∷ 3 ∷ 4 ∷ []) 4 lists-Represents (omega arith)

list_move_tail-Represents_example :
    (m' : Hooks) × (list_move_tail 3 1 lists ≡ some m')
    × Represents m' 1 (((2 ∷ []) ++ (4 ∷ [])) ++ (3 ∷ []))
list_move_tail-Represents_example =
    list_move_tail-Represents lists 3 1 (2 ∷ []) (4 ∷ []) lists-Represents
