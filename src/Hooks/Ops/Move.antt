-- ===== src/Hooks/Ops/Move.antt =====
-- net_common_list.h, `list_move_tail` and `list_rotate_left`: the entry goes to the end.
use mathlib.Core.Path.{subst}
use simp_dserver.Prelude.{◌≡◌, ◌≢◌, refl, sym, some, List, [], ◌∷◌, ◌++◌, arith, append_assoc}
use simp_dserver.Hashmap.Memory.{Ptr, null, update}
use simp_dserver.Hooks.{Hooks, get_next, get_prev, set_next, set_prev, join}
use simp_dserver.Hooks.Chain.{
  Linked, Without, IsDistinct, Represents, prev-ne, next-ne, Without-parts,
}
use simp_dserver.Hooks.Append.{list_add_tail-Represents}
use simp_dserver.Hooks.Delete.{deleted, Linked-deleted, Without-deleted, IsDistinct-deleted}
use simp_dserver.Hooks.Empty.{list_empty-Represents}
use simp_dserver.Hooks.Ops.{del_entry, list_move_tail, list_rotate_left}

-- The hooks after `__list_del_entry`.
abbrev unlinked : Hooks → Ptr → Hooks
unlinked m entry = record {
  next = update m.next (m.prev entry) (m.next entry);
  prev = update m.prev (m.next entry) (m.prev entry);
}

-- Away from the entry, `list_del` leaves the same.
Linked-unlinked :
    (m : Hooks) (entry u : Ptr) (xs : List Ptr)
    → Linked (deleted m entry) u xs
    → Without entry (u ∷ xs)
    → Linked (unlinked m entry) u xs
Linked-unlinked m entry u [] linked other = tt
Linked-unlinked m entry u (v ∷ vs) linked other =
    let not_u : entry ≢ u = other.0 in
    let not_v : entry ≢ v = other.1.0 in
    let onward : update (update m.next (m.prev entry) (m.next entry)) entry null u ≡ v = linked.0 in
    let back : update (update m.prev (m.next entry) (m.prev entry)) entry null v ≡ u = linked.1 in
    (ground arith, ground arith, Linked-unlinked m entry v vs linked.2 other.1)

Without-sym : (p : Ptr) (xs ys : List Ptr) → IsDistinct (xs ++ (p ∷ ys)) → Without p (xs ++ ys)
Without-sym p [] ys d = d.0
Without-sym p (x ∷ xs) ys d =
    ((λ e. (Without-parts x xs (p ∷ ys) d.0).1.0 (sym e)), Without-sym p xs ys d.1)

Without-last : (p x : Ptr) (xs : List Ptr) → Without p xs → p ≢ x → Without p (xs ++ (x ∷ []))
Without-last p x [] w ne = (ne, tt)
Without-last p x (y ∷ ys) w ne = (w.0, Without-last p x ys w.1 ne)

del_entry-run :
    (m : Hooks) (entry : Ptr)
    → null ≢ entry
    → null ≢ m.prev entry
    → null ≢ m.next entry
    → del_entry entry m ≡ some (unlinked m entry)
unfolding del_entry join get_next get_prev set_next set_prev
del_entry-run m entry here before behind = ground arith

del_entry-Represents :
    (m : Hooks) (entry head : Ptr) (before after : List Ptr)
    → Represents m head (before ++ (entry ∷ after))
    → (m' : Hooks) × (del_entry entry m ≡ some m')
      × Represents m' head (before ++ after)
      × Without entry (head ∷ before ++ after)
del_entry-Represents m entry head before after (linked, distinct, whole) =
    let path : Linked m head (before ++ (entry ∷ (after ++ (head ∷ [])))) =
      subst (Linked m head) (append_assoc before (entry ∷ after) (head ∷ [])) linked in
    let (whole_before, whole_behind) = Without-parts null before (entry ∷ after) whole.1 in
    let other : entry ≢ head =
      λ e. (Without-parts head before (entry ∷ after) distinct.0).1.0 (sym e) in
    let away : Without entry (before ++ after) = Without-sym entry before after distinct.1 in
    let kept = Linked-deleted m entry head head before after path distinct distinct.0 in
    (
      unlinked m entry,
      del_entry-run m entry whole_behind.0
          (prev-ne m entry null head before (after ++ (head ∷ [])) path (whole.0, whole_before))
          (next-ne m entry head null head before after path whole_behind.1 whole.0),
      (
        Linked-unlinked m entry head ((before ++ after) ++ (head ∷ []))
            (subst (Linked (deleted m entry) head) (sym (append_assoc before after (head ∷ [])))
              kept)
            (other, Without-last entry head (before ++ after) away other),
        (
          Without-deleted head entry before after distinct.0,
          IsDistinct-deleted entry before after distinct.1,
        ),
        (whole.0, Without-deleted null entry before after whole.1),
      ),
      (other, away),
    )

-- Moving an entry of a list to its tail succeeds, and the list then stands for its sequence with the
-- entry last and the others in order.
pub list_move_tail-Represents :
    (m : Hooks) (entry head : Ptr) (before after : List Ptr)
    → Represents m head (before ++ (entry ∷ after))
    → (m' : Hooks) × (list_move_tail entry head m ≡ some m')
      × Represents m' head ((before ++ after) ++ (entry ∷ []))
unfolding list_move_tail
list_move_tail-Represents m entry head before after reps =
    let (m1, out, reps1, away) = del_entry-Represents m entry head before after reps in
    let (m2, back, reps2) =
      list_add_tail-Represents m1 entry head (before ++ after) reps1 away
        (λ e. (Without-parts null before (entry ∷ after) reps.2.1).1.0 (sym e)) in
    (m2, rw out back, reps2)

abbrev pub rotated : List Ptr → List Ptr
rotated [] = []
rotated (x ∷ xs) = xs ++ (x ∷ [])

-- Rotating a list succeeds: an empty list stays as it is, any other has its first entry last.
pub list_rotate_left-Represents :
    (m : Hooks) (head : Ptr) (xs : List Ptr)
    → Represents m head xs
    → (m' : Hooks) × (list_rotate_left head m ≡ some m') × Represents m' head (rotated xs)
unfolding list_rotate_left get_next
list_rotate_left-Represents m head [] reps =
    (m, rw (list_empty-Represents m head [] reps) refl, reps)
list_rotate_left-Represents m head (x ∷ xs) reps =
    let (m', run, moved) = list_move_tail-Represents m x head [] xs reps in
    let start : m.next head ≡ x = reps.0.0 in
    let there : null ≢ head = reps.2.0 in
    (m', rw (list_empty-Represents m head (x ∷ xs) reps) (ground (arith, run)), moved)
