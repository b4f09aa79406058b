-- ===== src/Hashmap/Height.antt =====
-- How high a bucket's red-black tree is, and so how long a walk down it takes.
use simp_dserver.Prelude.{ℕ, zero, suc, ◌+◌, ◌*◌, ◌^◌, ◌≤◌, ◌<◌, ◌≡◌, arith, List, some}
use simp_dserver.Hashmap.{inside_search}
use simp_dserver.Hashmap.Balanced.{RedBlack, leaf_ok, red_ok, black_ok, size}
use simp_dserver.Hashmap.Insert.{Bucket, Bucket-Rep}
use simp_dserver.Hashmap.Memory.{Ptr, Color, red, black, Heap}
use simp_dserver.Hashmap.Search.{Answers, inside_search-Answers}
use simp_dserver.Hashmap.Text.Order.{IsDomain}
use simp_dserver.Hashmap.Tree.{Tree, height}

-- A red top may add one level to the two for each black node.
abbrev extra : Color → ℕ
extra red = 1
extra black = 0

extra_le : (k : Color) → extra k ≤ 1
extra_le red = omega arith
extra_le black = omega arith

height_le : {k : Color} {n : ℕ} {t : Tree} → RedBlack k n t → height t ≤ extra k + 2 * n
height_le leaf_ok = omega arith
height_le (red_ok l r) = let a = height_le l in let b = height_le r in ground arith
height_le (black_ok {j} {k} l r) =
    let a = height_le l in
    let b = height_le r in let c = extra_le j in let d = extra_le k in ground arith

size_ge : {k : Color} {n : ℕ} {t : Tree} → RedBlack k n t → 2 ^ n ≤ suc (size t)
size_ge leaf_ok = omega arith
size_ge (red_ok l r) = omega (arith, size_ge l)
size_ge (black_ok {n} l r) = omega (arith, size_ge l, size_ge r)

pow_pos : (n : ℕ) → 0 < 2 ^ n
pow_pos zero = omega arith
pow_pos (suc n) = let low = pow_pos n in omega (arith, low)

pow_reflects : (n j : ℕ) → 2 ^ n < 2 ^ j → n < j
pow_reflects zero zero e = absurd (omega arith)
pow_reflects zero (suc j) e = omega arith
pow_reflects (suc n) zero e = absurd (let low = pow_pos n in omega (arith, e, low))
pow_reflects (suc n) (suc j) e = let below = pow_reflects n j (omega arith) in omega (arith, below)

-- The tree of a bucket with fewer than `2 ^ j` places for a node is lower than `2 * j`.
pub height-lt :
    {n : ℕ} {t : Tree} (j : ℕ) → RedBlack black n t → suc (size t) < 2 ^ j → height t < 2 * j
height-lt {n} {t} j b few =
    let n_lt = pow_reflects n j (omega (arith, size_ge b, few)) in omega (arith, height_le b, n_lt)

-- The search of a red-black bucket with fewer than `2 ^ j - 1` nodes visits at most `2 * j` places:
-- with that fuel it ends, leaves the memory as it is, and gives the address held with the domain, or
-- 0 when the bucket does not hold it.
pub inside_search-logarithmic :
    {nodes : Ptr → ℕ} (j h : ℕ) (d : List ℕ) (m : Heap) (t : Tree)
    → Bucket nodes h m t
    → suc (size t) < 2 ^ j
    → IsDomain d
    → (v : ℕ) × (inside_search (2 * j) h d m ≡ some (v, m)) × Answers t d v
inside_search-logarithmic j h d m t b few dom =
    inside_search-Answers (2 * j) h d m t (Bucket-Rep b) b.searches dom (height-lt j b.balanced few)
