-- ===== src/Hooks.antt =====
-- net_common/net_common_list.h: circular doubly linked lists through hooks in memory.
pub mod Chain
pub mod Append
pub mod Delete
pub mod Empty
pub mod Ops
mod Tests
use simp_dserver.Prelude.{ℕ, Bool, Option, none, some, ◌==◌, if◌then◌else◌}
use simp_dserver.Prelude.Faults.{◌>>=◌}
use simp_dserver.Hashmap.Memory.{Ptr, null, update}

-- The `next` and `prev` fields of every `struct list_head`. To follow NULL is a fault.
pub record Hooks : Type 0 where
  pub next : Ptr → Ptr
  pub prev : Ptr → Ptr

pub get_next : Ptr → Hooks → Option Ptr
get_next p m = if p == null then none else some (m.next p)

pub get_prev : Ptr → Hooks → Option Ptr
get_prev p m = if p == null then none else some (m.prev p)

pub set_next : Ptr → Ptr → Hooks → Option Hooks
set_next p q m = if p == null then none else some (record m { next = update m.next p q })

pub set_prev : Ptr → Ptr → Hooks → Option Hooks
set_prev p q m = if p == null then none else some (record m { prev = update m.prev p q })

-- `INIT_LIST_HEAD`
pub init_list_head : Ptr → Hooks → Option Hooks
unfolding set_next set_prev
init_list_head list m = do m ← set_next list list m; set_prev list list m

-- `__list_add`
pub add_between : (new prev next : Ptr) → Hooks → Option Hooks
unfolding set_next set_prev
add_between new prev next m = do
  m ← set_prev next new m
  m ← set_next new next m
  m ← set_prev new prev m
  set_next prev new m

pub list_add : (new head : Ptr) → Hooks → Option Hooks
unfolding add_between get_next
list_add new head m = do next ← get_next head m; add_between new head next m

pub list_add_tail : (new head : Ptr) → Hooks → Option Hooks
unfolding add_between get_prev
list_add_tail new head m = do prev ← get_prev head m; add_between new prev head m

-- `__list_del`
pub join : (prev next : Ptr) → Hooks → Option Hooks
unfolding set_next set_prev
join prev next m = do m ← set_prev next prev m; set_next prev next m

pub list_del : Ptr → Hooks → Option Hooks
unfolding join get_next get_prev
list_del entry m = do
  prev ← get_prev entry m
  next ← get_next entry m
  m ← join prev next m
  m ← set_next entry null m
  set_prev entry null m

pub list_empty : Ptr → Hooks → Option Bool
unfolding get_next
list_empty head m = do next ← get_next head m; some (next == head)
