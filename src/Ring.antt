-- ===== src/Ring.antt =====
-- net_ring/net_ring_common.{h,c}: the lock-free ring that carries request nodes between threads.
-- A call runs with no other thread in between.
-- Items are `void *`: a number, 0 for NULL. The fields `sp_enqueue` and `sc_dequeue` are never
-- read or written by the code and are left out.
pub mod Align
pub mod Inv
pub mod Queue
pub mod Refine
pub mod Window
mod Tests
use simp_dserver.Prelude.{
  ℕ, zero, suc, ◌+◌, ◌-◌, ◌^◌, Bool, true, false, Option, none, some, List, ◌==◌, leb,
  if◌then◌else◌, bit_and, get_elem?, set, replicate,
}
use simp_dserver.Prelude.Words.{add32, sub32}

-- `struct producer`
pub record Producer : Type 0 where
  pub watermark : ℕ
  pub size : ℕ
  pub mask : ℕ
  pub head : ℕ
  pub tail : ℕ

-- `struct consumer`
pub record Consumer : Type 0 where
  pub size : ℕ
  pub mask : ℕ
  pub head : ℕ
  pub tail : ℕ

-- `struct net_ring_common`
pub record Ring : Type 0 where
  pub prod : Producer
  pub cons : Consumer
  pub slots : List ℕ

-- The `int` that the operations return: 0 and -1.
pub data Status : Type 0 where
  success failure : Status

-- The do-while loop; `offset` is its value before the round. Each round shifts twice, for `mark1` and
-- for `mark2`, which is stored and never read. `1 << k` is an `int`, defined for k up to 30: `none` is
-- a shift beyond that.
pub align_loop : ℕ → ℕ → ℕ → Option ℕ
align_loop zero num offset = none
align_loop (suc fuel) num offset =
    let again = align_loop fuel num (offset + 1) in
    if leb (offset + 2) 30
    then (if leb (2 ^ (offset + 1)) num then again else some (2 ^ (offset + 1)))
    else none

pub align_pow2 : ℕ → Option ℕ
unfolding align_loop
align_pow2 num = align_loop 30 num 0

-- The ring that `init_npool` fills in for `tnem` slots.
pub fresh : ℕ → Ring
fresh tnem = record {
  prod = record { watermark = tnem; size = tnem; mask = tnem - 1; head = 0; tail = 0 };
  cons = record { size = tnem; mask = tnem - 1; head = 0; tail = 0 };
  slots = replicate tnem 0;
}

-- `malloc_ok` is whether `malloc` finds the memory; the inner `none` is the NULL that is returned
-- if it does not, the outer one an undefined shift.
pub init_npool : Bool → ℕ → Option (Option Ring)
init_npool malloc_ok nem = elim (align_pow2 nem) [
  | none ↦ none
  | some tnem ↦ some (if malloc_ok then some (fresh tnem) else none)
]

pub create : Bool → ℕ → Option (Option Ring)
unfolding init_npool
create malloc_ok nem = init_npool malloc_ok nem

-- `lock; cmpxchgl`: whether `dst` was `exp`, and the new value of `dst`.
abbrev pub cmpset : ℕ → ℕ → ℕ → Bool × ℕ
cmpset dst exp src = if dst == exp then (true, src) else (false, dst)

-- What the do-while of `enqueue` or `dequeue` ends with.
pub data Claim : Type 0 where
  refused : Claim
  claimed : (index : ℕ) → Claim

-- The compare-and-set loop of `enqueue`. The difference is unsigned, so `<= 0` is `== 0`.
-- `none` is out of fuel.
pub claim_enqueue : ℕ → Ring → Option (Claim × Ring)
claim_enqueue zero r = none
claim_enqueue (suc fuel) r =
    let prod_head = r.prod.head in
    let cons_tail = r.cons.tail in
    let free_entries = add32 (sub32 cons_tail prod_head) r.prod.mask in
    let (swapped, head) = cmpset r.prod.head prod_head (add32 prod_head 1) in
    let r' : Ring = record r { prod = record (r.prod) { head = head } } in
    let again = claim_enqueue fuel r' in
    if free_entries == 0
    then some (refused, r)
    else if swapped
    then some (claimed prod_head, r')
    else again

-- `while (ring->prod.tail != prod_head);`
pub spin_until : ℕ → ℕ → ℕ → Option (Unit {0})
spin_until zero tail head = none
spin_until (suc fuel) tail head =
    let again = spin_until fuel tail head in if tail == head then some tt else again

-- A write outside the slots changes nothing here; `Ring.Inv` rules it out.
pub publish_enqueue : ℕ → ℕ → ℕ → Ring → Option (Status × Ring)
unfolding spin_until
publish_enqueue fuel prod_head item r = elim (spin_until fuel r.prod.tail prod_head) [
  | none ↦ none
  | some _ ↦ some (
    success,
    record r {
      prod = record (r.prod) { tail = add32 prod_head 1 };
      slots = set r.slots (bit_and prod_head r.prod.mask) item;
    },
  )
]

-- `net_ring_common_module_enqueue`; `none` means that a loop did not end within the fuel.
unfoldable pub enqueue : ℕ → Ring → ℕ → Option (Status × Ring)
unfolding claim_enqueue publish_enqueue
enqueue fuel r item = elim (claim_enqueue fuel r) [
  | none ↦ none
  | some (refused, r') ↦ some (failure, r')
  | some (claimed i, r') ↦ publish_enqueue fuel i item r'
]

-- The compare-and-set loop of `dequeue`.
pub claim_dequeue : ℕ → Ring → Option (Claim × Ring)
claim_dequeue zero r = none
claim_dequeue (suc fuel) r =
    let prod_tail = r.prod.tail in
    let cons_head = r.cons.head in
    let busy_entries = sub32 prod_tail cons_head in
    let (swapped, head) = cmpset r.cons.head cons_head (add32 cons_head 1) in
    let r' : Ring = record r { cons = record (r.cons) { head = head } } in
    let again = claim_dequeue fuel r' in
    if busy_entries == 0
    then some (refused, r)
    else if swapped
    then some (claimed cons_head, r')
    else again

-- What `dequeue` gives: status, the item written through `item` (`none` where nothing is written),
-- and the ring.
pub record Dequeued : Type 0 where
  pub status : Status
  pub item : Option ℕ
  pub ring : Ring

pub publish_dequeue : ℕ → ℕ → Ring → Option Dequeued
unfolding spin_until
publish_dequeue fuel cons_head r = elim (spin_until fuel r.cons.tail cons_head) [
  | none ↦ none
  | some _ ↦ some (record {
    status = success;
    item = get_elem? r.slots (bit_and cons_head r.prod.mask);
    ring = record r { cons = record (r.cons) { tail = add32 cons_head 1 } };
  })
]

-- `net_ring_common_module_dequeue`
pub dequeue : ℕ → Ring → Option Dequeued
unfolding claim_dequeue publish_dequeue
dequeue fuel r = elim (claim_dequeue fuel r) [
  | none ↦ none
  | some (refused, r') ↦ some (record { status = failure; item = none; ring = r' })
  | some (claimed i, r') ↦ publish_dequeue fuel i r'
]
