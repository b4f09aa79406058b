-- ===== src/Hashmap/Erase/Tests.antt =====
-- Seven domains are inserted, and erased one after the other.
use simp_dserver.Prelude.{
  ℕ, ◌+◌, ◌≡◌, refl, Option, none, some, List, [], ◌∷◌, ltb, ◌==◌, if◌then◌else◌,
}
use simp_dserver.Hashmap.{init, new_cell, inside_insert, inside_search}
use simp_dserver.Hashmap.Memory.{
  Cell, Heap, Cmd, pure, ◌>>=◌, ◌>>◌, load, store, set_parent, set_color, set_left, set_right,
  get_root, set_root, is_red,
}
use simp_dserver.Hashmap.Rbtree.{insert_color}
use simp_dserver.Hashmap.Text.{strcmp}
use simp_dserver.Hashmap.Erase.{erase}
use simp_dserver.Hashmap.Walk.{leftmost}

abbrev named : ℕ → Option Cell
named p =
    if p == 0 then none else if ltb p 8 then some (new_cell ((96 + p) ∷ []) 1 (10 + p)) else none

abbrev start : Heap
start = init (record { cells = named; roots = λ h. 7 })

-- Erases the node `p`, and gives the new root with what searches for its domain and for `e` find.
abbrev without : ℕ → Cmd (List ℕ)
without p = do
  erase 9 p 0
  top ← get_root 0
  gone ← inside_search 9 0 ((96 + p) ∷ [])
  kept ← inside_search 9 0 (b'e' ∷ [])
  pure (top ∷ gone ∷ kept ∷ [])

abbrev session : Cmd (List (List ℕ))
session = do
  one ← inside_insert 9 0 1
  two ← inside_insert 9 0 2
  three ← inside_insert 9 0 3
  four ← inside_insert 9 0 4
  five ← inside_insert 9 0 5
  six ← inside_insert 9 0 6
  seven ← inside_insert 9 0 7
  d ← without 4
  b ← without 2
  a ← without 1
  g ← without 7
  c ← without 3
  f ← without 6
  e ← without 5
  pure (d ∷ b ∷ a ∷ g ∷ c ∷ f ∷ e ∷ [])

rows_of : Option (List (List ℕ) × Heap) → Option (List (List ℕ))
rows_of none = none
rows_of (some (xs, m)) = some xs

session_test :
    rows_of (session start)
    ≡ some (
        (2 ∷ 0 ∷ 15 ∷ [])
        ∷ (6 ∷ 0 ∷ 15 ∷ [])
        ∷ (6 ∷ 0 ∷ 15 ∷ [])
        ∷ (5 ∷ 0 ∷ 15 ∷ [])
        ∷ (5 ∷ 0 ∷ 15 ∷ [])
        ∷ (5 ∷ 0 ∷ 15 ∷ [])
        ∷ (0 ∷ 0 ∷ 0 ∷ [])
        ∷ [])
unfolding init new_cell inside_insert inside_search rows_of strcmp insert_color load store
    set_parent set_color set_left set_right get_root set_root is_red erase leftmost
session_test = refl
