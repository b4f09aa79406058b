-- ===== src/Hooks/Delete.antt =====
-- net_common_list.h, `list_del`: it takes one entry out of the sequence.
use mathlib.Core.Path.{subst}
use simp_dserver.Prelude.{◌≡◌, ◌≢◌, sym, some, List, [], ◌∷◌, ◌++◌, arith, append_assoc}
use simp_dserver.Hashmap.Memory.{Ptr, null, update}
use simp_dserver.Hooks.{Hooks, list_del}
use simp_dserver.Hooks.Chain.{
  Linked, Without, IsDistinct, Represents, prev-ne, next-ne, Without-parts,
}

-- The hooks after the deletion of `entry`.
abbrev pub deleted : Hooks → Ptr → Hooks
deleted m entry = record {
  next = update (update m.next (m.prev entry) (m.next entry)) entry null;
  prev = update (update m.prev (m.next entry) (m.prev entry)) entry null;
}

-- Behind the entry nothing that is read has changed.
Linked-behind :
    (m : Hooks) (entry p q head u : Ptr) (xs : List Ptr)
    → Linked m u (xs ++ (head ∷ []))
    → p ≡ m.prev entry
    → q ≡ m.next entry
    → Without p (u ∷ xs)
    → Without entry (u ∷ xs)
    → Without q xs
    → q ≢ head
    → entry ≢ head
    → Linked (deleted m entry) u (xs ++ (head ∷ []))
Linked-behind m entry p q head u [] linked ep eq before fresh after ne he =
    (ground arith, ground arith, tt)
Linked-behind m entry p q head u (v ∷ vs) linked ep eq before fresh after ne he = (
  ground arith,
  ground arith,
  Linked-behind m entry p q head v vs linked.2 ep eq before.1 fresh.1 after.1 ne he,
)

pub Linked-deleted :
    (m : Hooks) (entry head u : Ptr) (before after : List Ptr)
    → Linked m u (before ++ (entry ∷ (after ++ (head ∷ []))))
    → IsDistinct (u ∷ before ++ (entry ∷ after))
    → Without head (before ++ (entry ∷ after))
    → Linked (deleted m entry) u (before ++ (after ++ (head ∷ [])))
Linked-deleted m entry head u [] [] linked distinct outside = (ground arith, ground arith, tt)
Linked-deleted m entry head u [] (b ∷ bs) linked distinct outside = (
  ground arith,
  ground arith,
  Linked-behind m entry u b head b bs linked.2.2 (sym linked.1) (sym linked.2.0) distinct.0.1
      distinct.1.0 distinct.1.1.0 (λ e. outside.1.0 (sym e)) (λ e. outside.0 (sym e)),
)
Linked-deleted m entry head u (v ∷ vs) after linked distinct outside =
    let (u_before, u_behind) = Without-parts u (v ∷ vs) (entry ∷ after) distinct.0 in
    let (v_before, v_behind) = Without-parts v vs (entry ∷ after) distinct.1.0 in
    let not_last : u ≢ m.prev entry =
      prev-ne m entry u v vs (after ++ (head ∷ [])) linked.2 u_before in
    let not_next : v ≢ m.next entry =
      next-ne m entry head v v vs after linked.2 v_behind.1 (λ e. outside.0 (sym e)) in
    (
      ground arith,
      ground arith,
      Linked-deleted m entry head v vs after linked.2 distinct.1 outside.1,
    )

Without-join : (p : Ptr) (xs ys : List Ptr) → Without p xs → Without p ys → Without p (xs ++ ys)
Without-join p [] ys w v = v
Without-join p (x ∷ xs) ys w v = (w.0, Without-join p xs ys w.1 v)

pub Without-deleted :
    (p entry : Ptr) (xs ys : List Ptr) → Without p (xs ++ (entry ∷ ys)) → Without p (xs ++ ys)
Without-deleted p entry xs ys w =
    let (first, second) = Without-parts p xs (entry ∷ ys) w in Without-join p xs ys first second.1

pub IsDistinct-deleted :
    (entry : Ptr) (xs ys : List Ptr) → IsDistinct (xs ++ (entry ∷ ys)) → IsDistinct (xs ++ ys)
IsDistinct-deleted entry [] ys d = d.1
IsDistinct-deleted entry (x ∷ xs) ys d =
    (Without-deleted x entry xs ys d.0, IsDistinct-deleted entry xs ys d.1)

list_del-run :
    (m : Hooks) (entry : Ptr)
    → null ≢ entry
    → null ≢ m.prev entry
    → null ≢ m.next entry
    → list_del entry m ≡ some (deleted m entry)
unfolding list_del
list_del-run m entry here before behind = ground arith

-- Deleting an entry of a list succeeds, and the list then stands for its sequence without it, the
-- others in order.
pub list_del-Represents :
    (m : Hooks) (entry head : Ptr) (before after : List Ptr)
    → Represents m head (before ++ (entry ∷ after))
    → (m' : Hooks) × (list_del entry m ≡ some m') × Represents m' head (before ++ after)
list_del-Represents m entry head before after (linked, distinct, whole) =
    let path : Linked m head (before ++ (entry ∷ (after ++ (head ∷ [])))) =
      subst (Linked m head) (append_assoc before (entry ∷ after) (head ∷ [])) linked in
    let (whole_before, whole_behind) = Without-parts null before (entry ∷ after) whole.1 in
    (
      deleted m entry,
      list_del-run m entry whole_behind.0
          (prev-ne m entry null head before (after ++ (head ∷ [])) path (whole.0, whole_before))
          (next-ne m entry head null head before after path whole_behind.1 whole.0),
      (
        subst (Linked (deleted m entry) head) (sym (append_assoc before after (head ∷ [])))
            (Linked-deleted m entry head head before after path distinct distinct.0),
        (
          Without-deleted head entry before after distinct.0,
          IsDistinct-deleted entry before after distinct.1,
        ),
        (whole.0, Without-deleted null entry before after whole.1),
      ),
    )
