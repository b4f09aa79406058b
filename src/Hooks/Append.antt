-- ===== src/Hooks/Append.antt =====
-- net_common_list.h, `list_add_tail`: it appends to the sequence.
use mathlib.Core.Path.{subst}
use simp_dserver.Prelude.{◌≡◌, ◌≢◌, sym, some, List, [], ◌∷◌, ◌++◌, arith, append_assoc}
use simp_dserver.Hashmap.Memory.{Ptr, null, update}
use simp_dserver.Hooks.{Hooks, list_add_tail}
use simp_dserver.Hooks.Chain.{Linked, Without, IsDistinct, Represents, prev-ne}

-- The hooks after the insertion of `new` before `head`.
abbrev appended : Hooks → Ptr → Ptr → Hooks
appended m new head = record {
  next = update (update m.next new head) (m.prev head) new;
  prev = update (update m.prev head new) new (m.prev head);
}

Linked-appended :
    (m : Hooks) (new head u : Ptr) (xs : List Ptr)
    → Linked m u (xs ++ (head ∷ []))
    → IsDistinct (u ∷ xs)
    → Without head xs
    → Without new (u ∷ xs)
    → new ≢ head
    → Linked (appended m new head) u (xs ++ (new ∷ head ∷ []))
Linked-appended m new head u [] linked distinct outside fresh ne =
    (ground arith, ground arith, (ground arith, ground arith, tt))
Linked-appended m new head u (v ∷ vs) linked distinct outside fresh ne =
    let last : u ≢ m.prev head = prev-ne m head u v vs [] linked.2 distinct.0 in
    (
      ground arith,
      ground arith,
      Linked-appended m new head v vs linked.2 distinct.1 outside.1 fresh.1 ne,
    )

Without-append : (p x : Ptr) (xs : List Ptr) → Without p xs → p ≢ x → Without p (xs ++ (x ∷ []))
Without-append p x [] w ne = (ne, tt)
Without-append p x (y ∷ ys) w ne = (w.0, Without-append p x ys w.1 ne)

IsDistinct-append :
    (x : Ptr) (xs : List Ptr) → IsDistinct xs → Without x xs → IsDistinct (xs ++ (x ∷ []))
IsDistinct-append x [] d w = (tt, tt)
IsDistinct-append x (y ∷ ys) d w =
    (Without-append y x ys d.0 (λ e. w.0 (sym e)), IsDistinct-append x ys d.1 w.1)

list_add_tail-run :
    (m : Hooks) (new head : Ptr)
    → new ≢ null
    → head ≢ null
    → m.prev head ≢ null
    → list_add_tail new head m ≡ some (appended m new head)
unfolding list_add_tail
list_add_tail-run m new head new_ne head_ne last_ne = ground arith

prev-ne_null :
    (m : Hooks) (head u : Ptr) (xs : List Ptr)
    → Linked m u (xs ++ (head ∷ []))
    → Without null (u ∷ xs)
    → m.prev head ≢ null
prev-ne_null m head u xs linked whole e = prev-ne m head null u xs [] linked whole (sym e)

-- Adding an entry at the tail of a list that does not hold it succeeds, and the list then stands for
-- its sequence with the entry at the end.
pub list_add_tail-Represents :
    (m : Hooks) (new head : Ptr) (xs : List Ptr)
    → Represents m head xs
    → Without new (head ∷ xs)
    → new ≢ null
    → (m' : Hooks) × (list_add_tail new head m ≡ some m') × Represents m' head (xs ++ (new ∷ []))
list_add_tail-Represents m new head xs (linked, distinct, whole) fresh ne = (
  appended m new head,
  list_add_tail-run m new head ne (λ e. whole.0 (sym e)) (prev-ne_null m head head xs linked whole),
  (
    subst (Linked (appended m new head) head) (sym (append_assoc xs (new ∷ []) (head ∷ [])))
        (Linked-appended m new head head xs linked distinct distinct.0 fresh fresh.0),
    IsDistinct-append new (head ∷ xs) distinct fresh,
    Without-append null new (head ∷ xs) whole (λ e. ne (sym e)),
  ),
)
