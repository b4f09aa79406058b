-- ===== src/Hashmap/Memory.antt =====
-- net_hashmap_rbtree.h, net_hashmap_core.h: tree nodes in memory, and commands over them.
use simp_dserver.Prelude.{ℕ, Option, none, some, List, Bool, true, false, ◌==◌, if◌then◌else◌}

abbrev pub Ptr : Type 0
Ptr = ℕ

abbrev pub null : Ptr
null = 0

pub data Color : Type 0 where
  red black : Color

-- `struct net_hashmap_node` with its `struct rb_node`. The word `rb_parent_color` is the parent
-- pointer and, in its lowest bits, which an aligned pointer leaves free, the colour.
pub record Cell : Type 0 where
  pub parent : Ptr
  pub color : Color
  pub right : Ptr
  pub left : Ptr
  pub domain_len : ℕ
  pub domain : List ℕ
  pub ipv4 : ℕ

-- Allocated nodes, and the roots of the trees by bucket (`net_hashmap_array`).
pub record Heap : Type 0 where
  pub cells : Ptr → Option Cell
  pub roots : ℕ → Ptr

-- `none` is a fault (a NULL or dangling pointer) or a loop that outlasts its fuel.
abbrev pub Cmd : Type 0 → Type 0
Cmd A = Heap → Option (A × Heap)

abbrev pub pure : {A : Type 0} → A → Cmd A
pure a m = some (a, m)

abbrev pub fault : {A : Type 0} → Cmd A
fault m = none

infixl 5 ◌>>=◌ ◌>>◌
abbrev pub ◌>>=◌ : {A B : Type 0} → Cmd A → (A → Cmd B) → Cmd B
◌>>=◌ c k m = elim (c m) [ none ↦ none | some (a, m') ↦ k a m' ]

abbrev pub ◌>>◌ : {B : Type 0} → Cmd (Unit {0}) → Cmd B → Cmd B
c >> d = c >>= λ _. d

abbrev pub update : {A : Type 0} → (ℕ → A) → ℕ → A → ℕ → A
update f p a q = if q == p then a else f q

unfoldable pub load : Ptr → Cmd Cell
load p m = if p == null then none else elim (m.cells p) [ none ↦ none | some c ↦ some (c, m) ]

unfoldable pub store : Ptr → Cell → Cmd (Unit {0})
store p c m = some (tt, record m { cells = update m.cells p (some c) })

-- `rb_parent(p) = q` and the like: a read and a write of one field.
unfoldable pub set_parent : Ptr → Ptr → Cmd (Unit {0})
set_parent p q = do c ← load p; store p (record c { parent = q })

unfoldable pub set_color : Ptr → Color → Cmd (Unit {0})
set_color p k = do c ← load p; store p (record c { color = k })

unfoldable pub set_left : Ptr → Ptr → Cmd (Unit {0})
set_left p q = do c ← load p; store p (record c { left = q })

unfoldable pub set_right : Ptr → Ptr → Cmd (Unit {0})
set_right p q = do c ← load p; store p (record c { right = q })

unfoldable pub get_root : ℕ → Cmd Ptr
get_root h m = some (m.roots h, m)

unfoldable pub set_root : ℕ → Ptr → Cmd (Unit {0})
set_root h p m = some (tt, record m { roots = update m.roots h p })

-- `p && rb_is_red(p)`
unfoldable pub is_red : Ptr → Cmd Bool
is_red p =
    if p == null
    then pure false
    else do c ← load p; pure (elim c.color [ red ↦ true | black ↦ false ])

-- `if (p) c;`
abbrev pub unless_null : Ptr → Cmd (Unit {0}) → Cmd (Unit {0})
unless_null p c = if p == null then pure tt else c
