-- ===== src/Hooks/Chain.antt =====
-- net_common_list.h: the sequence that a list head stands for.
use simp_dserver.Prelude.{◌≡◌, ◌≢◌, ◌∙◌, List, [], ◌∷◌, ◌++◌}
use simp_dserver.Hashmap.Memory.{Ptr, null}
use simp_dserver.Hooks.{Hooks}

-- From `u` the hooks lead along the list, forward and back.
abbrev pub Linked : Hooks → Ptr → List Ptr → Type 0
Linked m u [] = Unit
Linked m u (v ∷ vs) = (m.next u ≡ v) × (m.prev v ≡ u) × Linked m v vs

abbrev pub Without : Ptr → List Ptr → Type 0
Without p [] = Unit
Without p (x ∷ xs) = (p ≢ x) × Without p xs

abbrev pub IsDistinct : List Ptr → Type 0
IsDistinct [] = Unit
IsDistinct (x ∷ xs) = Without x xs × IsDistinct xs

-- The list at `head` is the ring of `head` and the entries in order; none is NULL, none occurs
-- twice.
abbrev pub Represents : Hooks → Ptr → List Ptr → Type 0
Represents m head xs =
    Linked m head (xs ++ (head ∷ [])) × IsDistinct (head ∷ xs) × Without null (head ∷ xs)

-- What stands before an entry, or behind it, is none of the others.
pub prev-ne :
    (m : Hooks) (x u v : Ptr) (vs rest : List Ptr)
    → Linked m v (vs ++ (x ∷ rest))
    → Without u (v ∷ vs)
    → u ≢ m.prev x
prev-ne m x u v [] rest linked other e = other.0 (e ∙ linked.1)
prev-ne m x u v (w ∷ ws) rest linked other e = prev-ne m x u w ws rest linked.2 other.1 e

pub next-ne :
    (m : Hooks) (x head p u : Ptr) (before after : List Ptr)
    → Linked m u (before ++ (x ∷ (after ++ (head ∷ []))))
    → Without p after
    → p ≢ head
    → p ≢ m.next x
next-ne m x head p u [] [] linked other ne e = ne (e ∙ linked.2.0)
next-ne m x head p u [] (b ∷ bs) linked other ne e = other.0 (e ∙ linked.2.0)
next-ne m x head p u (v ∷ vs) after linked other ne e =
    next-ne m x head p v vs after linked.2 other ne e

pub Without-parts :
    (p : Ptr) (xs ys : List Ptr) → Without p (xs ++ ys) → Without p xs × Without p ys
Without-parts p [] ys w = (tt, w)
Without-parts p (x ∷ xs) ys w =
    let (first, second) = Without-parts p xs ys w.1 in ((w.0, first), second)
