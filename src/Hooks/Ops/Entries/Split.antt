-- ===== src/Hooks/Ops/Entries/Split.antt =====
-- net_common_list.h: the loops from an entry on, in both directions, split the sequence of a list.
use mathlib.Core.Path.{subst}
use mathlib.Core.List.{reverse, reverse_aux, reverse_aux-eq}
use simp_dserver.Prelude.{
  ℕ, zero, suc, ◌<◌, ◌+◌, length-append, ◌≡◌, ◌≢◌, some, List, [], ◌∷◌, ◌++◌, append_assoc, arith,
  length,
}
use simp_dserver.Hashmap.Memory.{Ptr, null}
use simp_dserver.Hooks.{Hooks, get_next, get_prev}
use simp_dserver.Hooks.Chain.{Linked, Without, Represents, Without-parts}
use simp_dserver.Hooks.Ops.{each_from, each_back_from}
use simp_dserver.Hooks.Ops.Entries.{
  for_each_entry_from, for_each_entry_continue, for_each_entry_continue_reverse,
}
use simp_dserver.Hooks.Ops.Loops.{each_from-Linked}

-- From `u` the hooks lead back along the list.
abbrev Back : Hooks → Ptr → List Ptr → Type 0
Back m u [] = Unit
Back m u (v ∷ vs) = (m.prev u ≡ v) × Back m v vs

Linked-Back :
    (m : Hooks) (u e : Ptr) (xs rest seen : List Ptr)
    → Linked m u (xs ++ (e ∷ rest))
    → Back m u seen
    → Back m e (reverse_aux xs (u ∷ seen))
Linked-Back m u e [] rest seen linked back = (linked.1, back)
Linked-Back m u e (x ∷ xs) rest seen linked back =
    Linked-Back m x e xs rest (u ∷ seen) linked.2 (linked.1, back)

Without-reverse_aux :
    (p : Ptr) (xs ys : List Ptr) → Without p xs → Without p ys → Without p (reverse_aux xs ys)
Without-reverse_aux p [] ys w v = v
Without-reverse_aux p (x ∷ xs) ys w v = Without-reverse_aux p xs (x ∷ ys) w.1 (w.0, v)

length-reverse_aux : (xs ys : List Ptr) → length (reverse_aux xs ys) ≡ length xs + length ys
length-reverse_aux [] ys = omega arith
length-reverse_aux (x ∷ xs) ys = omega (arith, length-reverse_aux xs (x ∷ ys))

each_back_from-Back :
    (m : Hooks) (head u : Ptr) (xs : List Ptr) (fuel : ℕ)
    → Back m u (xs ++ (head ∷ []))
    → Without head xs
    → Without null xs
    → length xs < fuel
    → each_back_from fuel (m.prev u) head m ≡ some xs
unfolding each_back_from get_prev
each_back_from-Back m head u xs zero linked outside whole enough = absurd (omega arith)
each_back_from-Back m head u [] (suc f) linked outside whole enough = ground arith
each_back_from-Back m head u (x ∷ xs) (suc f) linked outside whole enough =
    let rest = each_back_from-Back m head x xs f linked.1 outside.1 whole.1 (omega arith) in
    let here : m.prev u ≡ x = linked.0 in
    let other : head ≢ x = outside.0 in let there : null ≢ x = whole.0 in ground (arith, rest)

Linked-suffix :
    (m : Hooks) (u pos : Ptr) (xs rest : List Ptr)
    → Linked m u (xs ++ (pos ∷ rest))
    → Linked m pos rest
Linked-suffix m u pos [] rest linked = linked.2
Linked-suffix m u pos (x ∷ xs) rest linked = Linked-suffix m x pos xs rest linked.2

from-continue :
    (m : Hooks) (pos head : Ptr) (xs : List Ptr) (fuel : ℕ)
    → head ≢ pos
    → null ≢ pos
    → each_from fuel (m.next pos) head m ≡ some xs
    → for_each_entry_from (suc fuel) pos head m ≡ some (pos ∷ xs)
unfolding for_each_entry_from each_from get_next
from-continue m pos head xs fuel other there run = ground (arith, run)

-- At an entry `pos` of a list, with more fuel than the list is long, the loop that continues behind
-- `pos` visits the entries behind it in order, the one that continues in reverse visits those before
-- it from the last to the first, and the loop from `pos` visits `pos` and those behind it.
pub entries_split :
    (m : Hooks) (pos head : Ptr) (before after : List Ptr) (fuel : ℕ)
    → Represents m head (before ++ (pos ∷ after))
    → length (before ++ (pos ∷ after)) < fuel
    → (for_each_entry_continue fuel pos head m ≡ some after)
      × (for_each_entry_continue_reverse fuel pos head m ≡ some (reverse before))
      × (for_each_entry_from fuel pos head m ≡ some (pos ∷ after))
unfolding for_each_entry_continue for_each_entry_continue_reverse get_next get_prev
entries_split m pos head before after zero reps enough = absurd (omega arith)
entries_split m pos head before after (suc f) (linked, distinct, whole) enough =
    let path : Linked m head (before ++ (pos ∷ (after ++ (head ∷ [])))) =
      subst (Linked m head) (append_assoc before (pos ∷ after) (head ∷ [])) linked in
    let (out_before, out_behind) = Without-parts head before (pos ∷ after) distinct.0 in
    let (whole_before, whole_behind) = Without-parts null before (pos ∷ after) whole.1 in
    let long = length-append before (pos ∷ after) in
    let behind = Linked-suffix m head pos before (after ++ (head ∷ [])) path in
    let there : null ≢ pos = whole_behind.0 in
    let onward = λ (k : ℕ) (e : length after < k).
      each_from-Linked m head pos after k behind out_behind.1 whole_behind.1 e in
    let back =
      each_back_from-Back m head pos (reverse before) (suc f)
        (subst (Back m pos) (reverse_aux-eq before (head ∷ []))
          (Linked-Back m head pos before (after ++ (head ∷ [])) [] path tt))
        (Without-reverse_aux head before [] out_before tt)
        (Without-reverse_aux null before [] whole_before tt)
        (omega (arith, length-reverse_aux before [], long, enough)) in
    let ahead = onward (suc f) (omega (arith, long, enough)) in
    (
      ground (arith, ahead),
      ground (arith, back),
      from-continue m pos head after f out_behind.0 there (onward f (omega (arith, long, enough))),
    )
