-- ===== src/Hooks/Empty.antt =====
-- net_common_list.h, `INIT_LIST_HEAD` and `list_empty`.
use simp_dserver.Prelude.{◌≡◌, ◌≢◌, some, Bool, true, false, List, [], ◌∷◌, arith}
use simp_dserver.Hashmap.Memory.{Ptr, null, update}
use simp_dserver.Hooks.{Hooks, init_list_head, list_empty}
use simp_dserver.Hooks.Chain.{Represents}

-- Initialising a list head succeeds and gives the empty list.
pub init_list_head-Represents :
    (m : Hooks) (head : Ptr)
    → null ≢ head
    → (m' : Hooks) × (init_list_head head m ≡ some m') × Represents m' head []
unfolding init_list_head
init_list_head-Represents m head ne = (
  record { next = update m.next head head; prev = update m.prev head head },
  ground arith,
  ((ground arith, ground arith, tt), (tt, tt), (ne, tt)),
)

abbrev pub is_nil : List Ptr → Bool
is_nil [] = true
is_nil (x ∷ xs) = false

-- `list_empty` tells whether the sequence of a list is empty.
pub list_empty-Represents :
    (m : Hooks) (head : Ptr) (xs : List Ptr)
    → Represents m head xs
    → list_empty head m ≡ some (is_nil xs)
unfolding list_empty
list_empty-Represents m head [] (linked, distinct, whole) =
    let here : null ≢ head = whole.0 in let back : m.next head ≡ head = linked.0 in ground arith
list_empty-Represents m head (x ∷ xs) (linked, distinct, whole) =
    let here : null ≢ head = whole.0 in
    let first : m.next head ≡ x = linked.0 in let other : head ≢ x = distinct.0.0 in ground arith
