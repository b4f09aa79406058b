-- ===== src/Hooks/Ops.antt =====
-- net_common_list.h: the operations that are made of the basic ones, and the loops over a list.
pub mod Entries
pub mod Loops
pub mod Move
mod Tests
use simp_dserver.Prelude.{
  ℕ, zero, suc, Bool, true, false, not, ◌&&◌, Option, none, some, List, [], ◌∷◌, ◌==◌,
  if◌then◌else◌,
}
use simp_dserver.Prelude.Faults.{◌>>=◌}
use simp_dserver.Hashmap.Memory.{Ptr, null}
use simp_dserver.Hooks.{
  Hooks, get_next, get_prev, set_next, set_prev, init_list_head, list_add, list_add_tail, join,
  list_empty,
}

-- `list_replace`
pub list_replace : (old new : Ptr) → Hooks → Option Hooks
list_replace old new m = do
  next ← get_next old m
  m ← set_next new next m
  m ← set_prev next new m
  prev ← get_prev old m
  m ← set_prev new prev m
  set_next prev new m

pub list_replace_init : (old new : Ptr) → Hooks → Option Hooks
unfolding list_replace
list_replace_init old new m = do m ← list_replace old new m; init_list_head old m

-- `__list_del_entry`
pub del_entry : Ptr → Hooks → Option Hooks
del_entry entry m = do prev ← get_prev entry m; next ← get_next entry m; join prev next m

pub list_del_init : Ptr → Hooks → Option Hooks
list_del_init entry m = do m ← del_entry entry m; init_list_head entry m

pub list_move : (entry head : Ptr) → Hooks → Option Hooks
list_move entry head m = do m ← del_entry entry m; list_add entry head m

pub list_move_tail : (entry head : Ptr) → Hooks → Option Hooks
list_move_tail entry head m = do m ← del_entry entry m; list_add_tail entry head m

pub list_is_last : (entry head : Ptr) → Hooks → Option Bool
list_is_last entry head m = do next ← get_next entry m; some (next == head)

pub list_empty_careful : Ptr → Hooks → Option Bool
list_empty_careful head m = do
  next ← get_next head m
  if next == head then (do prev ← get_prev head m; some (next == prev)) else some false

pub list_rotate_left : Ptr → Hooks → Option Hooks
list_rotate_left head m = do
  none_there ← list_empty head m
  if none_there then some m else do first ← get_next head m; list_move_tail first head m

pub list_is_singular : Ptr → Hooks → Option Bool
list_is_singular head m = do
  none_there ← list_empty head m
  if none_there
      then some false
      else do next ← get_next head m; prev ← get_prev head m; some (next == prev)

-- `__list_cut_position`
pub cut_at : (list head entry : Ptr) → Hooks → Option Hooks
cut_at list head entry m = do
  new_first ← get_next entry m
  first ← get_next head m
  m ← set_next list first m
  m ← set_prev first list m
  m ← set_prev list entry m
  m ← set_next entry list m
  m ← set_next head new_first m
  set_prev new_first head m

pub list_cut_position : (list head entry : Ptr) → Hooks → Option Hooks
unfolding cut_at
list_cut_position list head entry m = do
  none_there ← list_empty head m
  if none_there then some m else do
    singular ← list_is_singular head m
    next ← get_next head m
    if singular && (not (next == entry) && not (head == entry))
        then some m
        else if entry == head
        then init_list_head list m
        else cut_at list head entry m

-- `__list_splice`
pub splice_between : (list prev next : Ptr) → Hooks → Option Hooks
splice_between list prev next m = do
  first ← get_next list m
  last ← get_prev list m
  m ← set_prev first prev m
  m ← set_next prev first m
  m ← set_next last next m
  set_prev next last m

-- `if (!list_empty(list)) action`
pub unless_empty : Ptr → (Hooks → Option Hooks) → Hooks → Option Hooks
unless_empty list action m = do
  none_there ← list_empty list m
  if none_there then some m else action m

pub list_splice : (list head : Ptr) → Hooks → Option Hooks
unfolding splice_between unless_empty
list_splice list head =
    unless_empty list λ m. do next ← get_next head m; splice_between list head next m

pub list_splice_tail : (list head : Ptr) → Hooks → Option Hooks
unfolding splice_between unless_empty
list_splice_tail list head =
    unless_empty list λ m. do prev ← get_prev head m; splice_between list prev head m

pub list_splice_init : (list head : Ptr) → Hooks → Option Hooks
unfolding splice_between unless_empty
list_splice_init list head =
    unless_empty list
      λ m. do next ← get_next head m; m ← splice_between list head next m; init_list_head list m

pub list_splice_tail_init : (list head : Ptr) → Hooks → Option Hooks
unfolding splice_between unless_empty
list_splice_tail_init list head =
    unless_empty list
      λ m. do prev ← get_prev head m; m ← splice_between list prev head m; init_list_head list m

-- The loops of `list_for_each` and `list_for_each_prev` from `pos` on: the entries that they visit.
-- An entry's hook stands for the structure around it (`list_entry`).
pub each_from : ℕ → (pos head : Ptr) → Hooks → Option (List Ptr)
each_from zero pos head m = none
each_from (suc fuel) pos head m =
    if pos == head
    then some []
    else do next ← get_next pos m; rest ← each_from fuel next head m; some (pos ∷ rest)

pub each_back_from : ℕ → (pos head : Ptr) → Hooks → Option (List Ptr)
each_back_from zero pos head m = none
each_back_from (suc fuel) pos head m =
    if pos == head
    then some []
    else do prev ← get_prev pos m; rest ← each_back_from fuel prev head m; some (pos ∷ rest)

pub for_each : ℕ → Ptr → Hooks → Option (List Ptr)
for_each fuel head m = do first ← get_next head m; each_from fuel first head m

pub for_each_prev : ℕ → Ptr → Hooks → Option (List Ptr)
for_each_prev fuel head m = do last ← get_prev head m; each_back_from fuel last head m

-- `list_for_each_safe`: `n` is read before the body runs, which may take the entry out.
pub each_safe_from : ℕ → (pos n head : Ptr) → (Ptr → Hooks → Option Hooks) → Hooks → Option Hooks
each_safe_from zero pos n head body m = none
each_safe_from (suc fuel) pos n head body m =
    if pos == head
    then some m
    else do m ← body pos m; next ← get_next n m; each_safe_from fuel n next head body m

pub for_each_safe : ℕ → Ptr → (Ptr → Hooks → Option Hooks) → Hooks → Option Hooks
for_each_safe fuel head body m = do
  pos ← get_next head m
  n ← get_next pos m
  each_safe_from fuel pos n head body m
