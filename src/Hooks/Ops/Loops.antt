-- ===== src/Hooks/Ops/Loops.antt =====
-- net_common_list.h, the loops over a list: they end, and visit its sequence.
use simp_dserver.Prelude.{ℕ, zero, suc, ◌<◌, ◌≡◌, ◌≢◌, some, List, [], ◌∷◌, ◌++◌, arith, length}
use simp_dserver.Hashmap.Memory.{Ptr, null}
use simp_dserver.Hooks.{Hooks, get_next, list_del}
use simp_dserver.Hooks.Chain.{Linked, Without, Represents}
use simp_dserver.Hooks.Delete.{list_del-Represents}
use simp_dserver.Hooks.Ops.{each_from, for_each, each_safe_from, for_each_safe}

pub each_from-Linked :
    (m : Hooks) (head u : Ptr) (xs : List Ptr) (fuel : ℕ)
    → Linked m u (xs ++ (head ∷ []))
    → Without head xs
    → Without null xs
    → length xs < fuel
    → each_from fuel (m.next u) head m ≡ some xs
unfolding each_from get_next
each_from-Linked m head u xs zero linked outside whole enough = absurd (omega arith)
each_from-Linked m head u [] (suc f) linked outside whole enough = ground arith
each_from-Linked m head u (x ∷ xs) (suc f) linked outside whole enough =
    let rest = each_from-Linked m head x xs f linked.2 outside.1 whole.1 (omega arith) in
    let here : m.next u ≡ x = linked.0 in
    let other : head ≢ x = outside.0 in let there : null ≢ x = whole.0 in ground (arith, rest)

-- The loop over a list ends, with more fuel than the list is long, and visits its entries in order.
pub for_each-Represents :
    (m : Hooks) (head : Ptr) (xs : List Ptr) (fuel : ℕ)
    → Represents m head xs
    → length xs < fuel
    → for_each fuel head m ≡ some xs
unfolding for_each get_next
for_each-Represents m head xs fuel (linked, distinct, whole) enough =
    let there : null ≢ head = whole.0 in
    let run = each_from-Linked m head head xs fuel linked distinct.0 whole.1 enough in
    ground (arith, run)

first : List Ptr → Ptr → Ptr
first [] head = head
first (x ∷ xs) head = x

next-first :
    (m : Hooks) (u head : Ptr) (xs : List Ptr)
    → Linked m u (xs ++ (head ∷ []))
    → m.next u ≡ first xs head
unfolding first
next-first m u head [] linked = linked.0
next-first m u head (x ∷ xs) linked = linked.0

first-ne_null : (head : Ptr) (xs : List Ptr) → Without null (head ∷ xs) → null ≢ first xs head
unfolding first
first-ne_null head [] whole = whole.0
first-ne_null head (x ∷ xs) whole = whole.1.0

each_safe_from-list_del :
    (xs : List Ptr) (m : Hooks) (head : Ptr) (fuel : ℕ)
    → Represents m head xs
    → length xs < fuel
    → (m' : Hooks) × (each_safe_from fuel (first xs head) (m.next (first xs head)) head list_del m
        ≡ some m')
      × Represents m' head []
unfolding each_safe_from first get_next
each_safe_from-list_del xs m head zero reps enough = absurd (omega arith)
each_safe_from-list_del [] m head (suc f) reps enough = (m, ground arith, reps)
each_safe_from-list_del (x ∷ xs) m head (suc f) reps enough =
    let (m', deleted, reps') = list_del-Represents m x head [] xs reps in
    let (last, run, emptied) = each_safe_from-list_del xs m' head f reps' (omega arith) in
    let other : head ≢ x = reps.1.0.0 in
    let after : m.next x ≡ first xs head = next-first m x head xs (reps.0.2) in
    let there : null ≢ first xs head = first-ne_null head xs (reps'.2) in
    (last, rw (deleted, after) (ground (arith, run)), emptied)

-- The safe loop over a list, with `list_del` as its body and more fuel than the list is long, ends
-- without a fault, and leaves the list empty.
pub for_each_safe-list_del :
    (m : Hooks) (head : Ptr) (xs : List Ptr) (fuel : ℕ)
    → Represents m head xs
    → length xs < fuel
    → (m' : Hooks) × (for_each_safe fuel head list_del m ≡ some m') × Represents m' head []
unfolding for_each_safe get_next
for_each_safe-list_del m head xs fuel reps enough =
    let (last, run, emptied) = each_safe_from-list_del xs m head fuel reps enough in
    let start : m.next head ≡ first xs head = next-first m head head xs (reps.0) in
    let here : null ≢ head = reps.2.0 in
    let there : null ≢ first xs head = first-ne_null head xs (reps.2) in
    (last, rw start (ground (arith, run)), emptied)
