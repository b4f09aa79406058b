-- ===== src/Ring/Queue.antt =====
-- What a ring promises: a first-in first-out queue of at most `room` items.
use simp_dserver.Prelude.{ℕ, Option, none, some, List, [], ◌∷◌, ◌++◌, ltb, if◌then◌else◌, length}
use simp_dserver.Ring.{Status, success, failure}

unfoldable pub push : ℕ → List ℕ → ℕ → Status × List ℕ
push room q x = if ltb (length q) room then (success, q ++ (x ∷ [])) else (failure, q)

unfoldable pub pop : List ℕ → Status × Option ℕ × List ℕ
pop [] = (failure, none, [])
pop (x ∷ q) = (success, some x, q)

-- A caller's requests, and what it is answered.
pub data Op : Type 0 where
  put : ℕ → Op
  get : Op

abbrev pub Reply : Type 0
Reply = Status × Option ℕ

unfoldable pub run : ℕ → List ℕ → List Op → List Reply
run room q [] = []
run room q (put x ∷ ops) = let (s, q') = push room q x in (s, none) ∷ run room q' ops
run room q (get ∷ ops) = let (s, out, q') = pop q in (s, out) ∷ run room q' ops
