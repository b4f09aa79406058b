-- ===== src/Hooks/Tests.antt =====
-- A list of two entries, and the theorems at it.
use simp_dserver.Prelude.{◌≡◌, refl, some, [], ◌∷◌, ◌++◌, arith, ◌==◌, if◌then◌else◌}
use simp_dserver.Hooks.{Hooks, list_add_tail, list_del}
use simp_dserver.Hooks.Chain.{Represents}
use simp_dserver.Hooks.Append.{list_add_tail-Represents}
use simp_dserver.Hooks.Delete.{list_del-Represents}

-- The head is 1, the entries are 2 and 3.
abbrev two : Hooks
two = record {
  next = λ p. if p == 1 then 2 else if p == 2 then 3 else 1;
  prev = λ p. if p == 1 then 3 else if p == 3 then 2 else 1;
}

two-Represents : Represents two 1 (2 ∷ 3 ∷ [])
two-Represents = (
  (refl, refl, (refl, refl, (refl, refl, tt))),
  ((omega arith, (omega arith, tt)), ((omega arith, tt), (tt, tt))),
  (omega arith, (omega arith, (omega arith, tt))),
)

list_add_tail-Represents_example :
    (m : Hooks) × (list_add_tail 4 1 two ≡ some m) × Represents m 1 ((2 ∷ 3 ∷ []) ++ (4 ∷ []))
list_add_tail-Represents_example =
    list_add_tail-Represents two 4 1 (2 ∷ 3 ∷ []) two-Represents
      (omega arith, (omega arith, (omega arith, tt))) (omega arith)

list_del-Represents_example :
    (m : Hooks) × (list_del 3 two ≡ some m) × Represents m 1 ((2 ∷ []) ++ [])
list_del-Represents_example = list_del-Represents two 3 1 (2 ∷ []) [] two-Represents
