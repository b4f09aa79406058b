-- ===== src/Hooks/Ops/Entries.antt =====
-- net_common_list.h: the loops over the structures around the hooks. A hook stands for the structure
-- that it is in (`list_entry`).
pub mod Split
mod Tests
use simp_dserver.Prelude.{ℕ, zero, suc, Option, none, some, List, [], ◌∷◌, ◌==◌, if◌then◌else◌}
use simp_dserver.Prelude.Faults.{◌>>=◌}
use simp_dserver.Hashmap.Memory.{Ptr, null}
use simp_dserver.Hooks.{Hooks, get_next, get_prev}
use simp_dserver.Hooks.Ops.{
  each_from, each_back_from, for_each, for_each_prev, each_safe_from, for_each_safe,
}

-- `list_for_each_prev_safe` from `pos` on: `n` is read before the body runs.
pub each_back_safe_from :
    ℕ → (pos n head : Ptr) → (Ptr → Hooks → Option Hooks) → Hooks → Option Hooks
each_back_safe_from zero pos n head body m = none
each_back_safe_from (suc fuel) pos n head body m =
    if pos == head
    then some m
    else do m ← body pos m; prev ← get_prev n m; each_back_safe_from fuel n prev head body m

pub for_each_prev_safe : ℕ → Ptr → (Ptr → Hooks → Option Hooks) → Hooks → Option Hooks
unfolding each_back_safe_from
for_each_prev_safe fuel head body m = do
  pos ← get_prev head m
  n ← get_prev pos m
  each_back_safe_from fuel pos n head body m

-- `list_for_each_entry` and `list_for_each_entry_reverse`
pub for_each_entry : ℕ → Ptr → Hooks → Option (List Ptr)
for_each_entry fuel head m = for_each fuel head m

pub for_each_entry_reverse : ℕ → Ptr → Hooks → Option (List Ptr)
for_each_entry_reverse fuel head m = for_each_prev fuel head m

-- `list_prepare_entry`: `none` is a NULL cursor.
pub prepare_entry : Option Ptr → Ptr → Ptr
prepare_entry none head = head
prepare_entry (some pos) head = pos

-- The loops that start behind the cursor, before it, and at it.
pub for_each_entry_continue : ℕ → (pos head : Ptr) → Hooks → Option (List Ptr)
for_each_entry_continue fuel pos head m = do next ← get_next pos m; each_from fuel next head m

pub for_each_entry_continue_reverse : ℕ → (pos head : Ptr) → Hooks → Option (List Ptr)
for_each_entry_continue_reverse fuel pos head m = do
  prev ← get_prev pos m
  each_back_from fuel prev head m

pub for_each_entry_from : ℕ → (pos head : Ptr) → Hooks → Option (List Ptr)
for_each_entry_from fuel pos head m = each_from fuel pos head m

-- The safe loops.
pub for_each_entry_safe : ℕ → Ptr → (Ptr → Hooks → Option Hooks) → Hooks → Option Hooks
for_each_entry_safe fuel head body m = for_each_safe fuel head body m

pub for_each_entry_safe_from :
    ℕ → (pos head : Ptr) → (Ptr → Hooks → Option Hooks) → Hooks → Option Hooks
for_each_entry_safe_from fuel pos head body m = do
  n ← get_next pos m
  each_safe_from fuel pos n head body m

pub for_each_entry_safe_continue :
    ℕ → (pos head : Ptr) → (Ptr → Hooks → Option Hooks) → Hooks → Option Hooks
unfolding for_each_entry_safe_from
for_each_entry_safe_continue fuel pos head body m = do
  next ← get_next pos m
  n ← get_next next m
  each_safe_from fuel next n head body m

pub for_each_entry_safe_reverse : ℕ → Ptr → (Ptr → Hooks → Option Hooks) → Hooks → Option Hooks
unfolding for_each_prev_safe
for_each_entry_safe_reverse fuel head body m = for_each_prev_safe fuel head body m

-- `list_safe_reset_next`: the new `n`.
pub safe_reset_next : Ptr → Hooks → Option Ptr
safe_reset_next pos m = get_next pos m
