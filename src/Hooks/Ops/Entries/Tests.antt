-- ===== src/Hooks/Ops/Entries/Tests.antt =====
-- The loops over structures at two lists.
use simp_dserver.Prelude.{◌≡◌, refl, none, some, [], ◌∷◌, arith}
use simp_dserver.Prelude.Faults.{◌>>=◌}
use simp_dserver.Hooks.{get_next, get_prev, set_next, set_prev, list_del, join}
use simp_dserver.Hooks.Ops.{for_each, for_each_prev, each_from, each_back_from, each_safe_from}
use simp_dserver.Hooks.Ops.Entries.{
  for_each_entry, for_each_entry_reverse, prepare_entry, for_each_entry_continue,
  for_each_entry_continue_reverse, for_each_entry_from, for_each_prev_safe, each_back_safe_from,
  for_each_entry_safe_from, for_each_entry_safe_continue, for_each_entry_safe_reverse,
  safe_reset_next,
}
use simp_dserver.Hooks.Ops.Entries.Split.{entries_split}
use simp_dserver.Hooks.Ops.Tests.{lists, lists-Represents}

-- All of the list at 1, and what stands behind 3 once the loop has taken it out.
sweep_test : (do m ← for_each_entry_safe_reverse 9 1 list_del lists; for_each_entry 9 1 m) ≡ some []
unfolding for_each_entry_safe_reverse for_each_prev_safe each_back_safe_from for_each_entry for_each
    each_from list_del join get_next get_prev set_next set_prev
sweep_test = refl

safe_from_test :
    (do m ← for_each_entry_safe_from 9 3 1 list_del lists; for_each_entry_reverse 9 1 m)
    ≡ some (2 ∷ [])
unfolding for_each_entry_safe_from each_safe_from for_each_entry_reverse for_each_prev
    each_back_from list_del join get_next get_prev set_next set_prev
safe_from_test = refl

safe_continue_test :
    (do
      m ← for_each_entry_safe_continue 9 (prepare_entry (some 3) 1) 1 list_del lists
      for_each_entry 9 (prepare_entry none 1) m)
    ≡ some (2 ∷ 3 ∷ [])
unfolding for_each_entry_safe_continue each_safe_from prepare_entry for_each_entry for_each
    each_from list_del join get_next get_prev set_next set_prev
safe_continue_test = refl

reset_test : safe_reset_next 3 lists ≡ some 4
unfolding safe_reset_next get_next
reset_test = refl

entries_split_example :
    (for_each_entry_continue 4 3 1 lists ≡ some (4 ∷ []))
    × (for_each_entry_continue_reverse 4 3 1 lists ≡ some (2 ∷ []))
    × (for_each_entry_from 4 3 1 lists ≡ some (3 ∷ 4 ∷ []))
entries_split_example = entries_split lists 3 1 (2 ∷ []) (4 ∷ []) 4 lists-Represents (omega arith)
