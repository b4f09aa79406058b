-- ===== src/Ring/Refine.antt =====
-- A valid ring is the bounded queue of its contents: no call hangs, and none tells them apart.
use mathlib.Core.Option
use native.Mathlib.Nat.{mod-lt, mod-mod_of_dvd}
use simp_dserver.Prelude.{
  ℕ, suc, ◌+◌, ◌-◌, ◌%◌, ◌≡◌, ◌≢◌, refl, sym, ◌∙◌, ap, Option, none, some, List, [], ◌∷◌, ◌++◌,
  arith, length, length-set, get_or, set, bit_and, ◌==◌, if◌then◌else◌, Bool-cases, inl, inr,
}
use simp_dserver.Prelude.Words.{add32}
use simp_dserver.Ring.{
  Ring, Status, success, failure, Dequeued, enqueue, dequeue, claim_enqueue, claim_dequeue,
  publish_enqueue, publish_dequeue, spin_until,
}
use simp_dserver.Ring.Queue
use simp_dserver.Ring.Queue.{Op, put, get, Reply}
use simp_dserver.Ring.Inv.{IsValid, contents, count, size, size-dvd-word, bit_and-mask, mask-lt}
use simp_dserver.Ring.Window.{
  window, length-window, window_congr, window-set, window_of_ne_zero, get_elem?-eq-get_or,
}

-- The ring after an item has been stored, and after one has been taken.
abbrev stored : Ring → ℕ → Ring
stored r x = record r {
  prod = record (r.prod) { head = add32 r.prod.head 1; tail = add32 r.prod.head 1 };
  slots = set r.slots (bit_and r.prod.head r.prod.mask) x;
}

abbrev taken : Ring → Ring
taken r = record r {
  cons = record (r.cons) { head = add32 r.cons.head 1; tail = add32 r.cons.head 1 };
}

module _ {r : Ring} (v : IsValid r) where
  length-contents : length (contents r) ≡ count r
  length-contents = length-window (size r) r.slots r.cons.tail (count r)

  enqueue-stored :
      (fuel x : ℕ)
      → enqueue (suc fuel) r x
        ≡ (if count r == r.prod.mask then some (failure, r) else some (success, stored r x))
  unfolding enqueue claim_enqueue publish_enqueue spin_until
  enqueue-stored fuel x = ground (arith, v, mask-lt v)

  dequeue-taken :
      (fuel : ℕ)
      → dequeue (suc fuel) r ≡ (
          if count r == 0
          then some (record { status = failure; item = none; ring = r })
          else some (record {
            status = success;
            item = some (get_or r.slots (r.cons.tail % size r) 0);
            ring = taken r;
          }))
  unfolding dequeue claim_dequeue publish_dequeue spin_until
  dequeue-taken fuel = ground (
    arith,
    v,
    mask-lt v,
    bit_and-mask v r.cons.head,
    get_elem?-eq-get_or r.slots (r.cons.tail % size r),
    mod-lt r.cons.tail {m = size r} (omega arith),
  )

  stored-IsValid : (x : ℕ) → count r ≢ r.prod.mask → IsValid (stored r x)
  stored-IsValid x ne = record {
    exponent = v.exponent;
    exponent_le = v.exponent_le;
    power = v.power;
    same_mask = v.same_mask;
    same_size = v.same_size;
    storage = length-set r.slots _ x ∙ v.storage;
    prod_lt = omega arith;
    cons_lt = v.cons_lt;
    prod_idle = refl;
    cons_idle = v.cons_idle;
    fits = omega (arith, v, mask-lt v);
  }

  taken-IsValid : count r ≢ 0 → IsValid (taken r)
  taken-IsValid ne = record {
    exponent = v.exponent;
    exponent_le = v.exponent_le;
    power = v.power;
    same_mask = v.same_mask;
    same_size = v.same_size;
    storage = v.storage;
    prod_lt = v.prod_lt;
    cons_lt = omega arith;
    prod_idle = v.prod_idle;
    cons_idle = refl;
    fits = omega (arith, v, mask-lt v);
  }

  -- The slot that is written comes just past the window.
  write_index : bit_and r.prod.head r.prod.mask ≡ (r.cons.tail + count r) % size r
  write_index =
      bit_and-mask v r.prod.head
      ∙ ap (λ i. i % size r) (omega (arith, v))
      ∙ mod-mod_of_dvd (size r) (r.cons.tail + count r) (size-dvd-word v)

  contents-stored : (x : ℕ) → count r ≢ r.prod.mask → contents (stored r x) ≡ contents r ++ (x ∷ [])
  contents-stored x ne =
      ap (window (size r) (stored r x).slots r.cons.tail) counted
      ∙ window-set (size r) r.slots x (count r) r.cons.tail _ (omega (arith, v.storage))
          (omega (arith, v)) write_index
    where
      counted : count (stored r x) ≡ suc (count r)
      counted = omega (arith, v, mask-lt v)

  contents-taken :
      count r ≢ 0 → contents r ≡ get_or r.slots (r.cons.tail % size r) 0 ∷ contents (taken r)
  contents-taken ne =
      window_of_ne_zero (size r) r.slots r.cons.tail (count r) ne
      ∙ ap (λ rest. get_or r.slots (r.cons.tail % size r) 0 ∷ rest)
          (ap (window (size r) r.slots (r.cons.tail + 1)) counted
            ∙ window_congr (size r) r.slots _ _ (count (taken r)) next)
    where
      counted : count r - 1 ≡ count (taken r)
      counted = omega (arith, v, mask-lt v)

      next : (r.cons.tail + 1) % size r ≡ add32 r.cons.head 1 % size r
      next =
          sym (mod-mod_of_dvd (size r) (r.cons.tail + 1) (size-dvd-word v))
          ∙ ap (λ i. add32 i 1 % size r) v.cons_idle

  -- A call of `enqueue` on a valid ring ends without waiting, whatever the fuel, and does to the
  -- contents what a push on the queue of capacity `mask` does, with the same return code.
  pub enqueue_refines :
      (fuel x : ℕ)
      → (s : Status) × (r' : Ring) × (enqueue (suc fuel) r x ≡ some (s, r'))
        × IsValid r'
        × (r'.prod.mask ≡ r.prod.mask)
        × ((s, contents r') ≡ Queue.push r.prod.mask (contents r) x)
  unfolding Queue.push
  enqueue_refines fuel x = elim (Bool-cases (count r == r.prod.mask)) [
    | inl full ↦
        (failure, r, rw (enqueue-stored, full) refl, v, refl, ground (arith, length-contents))
    | inr free ↦
        let ne : count r ≢ r.prod.mask = ground arith in
        (
          success,
          stored r x,
          rw (enqueue-stored, free) refl,
          stored-IsValid x ne,
          refl,
          ground (arith, length-contents, contents-stored x ne, v),
        )
  ]

  -- A call of `dequeue` on a valid ring ends without waiting, whatever the fuel, and does to the
  -- contents what a pop of the queue does, with the same return code and item.
  pub dequeue_refines :
      (fuel : ℕ)
      → (d : Dequeued) × (dequeue (suc fuel) r ≡ some d)
        × IsValid d.ring
        × (d.ring.prod.mask ≡ r.prod.mask)
        × ((d.status, d.item, contents d.ring) ≡ Queue.pop (contents r))
  unfolding Queue.pop
  dequeue_refines fuel = elim (Bool-cases (count r == 0)) [
    | inl empty ↦ (
      record { status = failure; item = none; ring = r },
      rw (dequeue-taken, empty) refl,
      v,
      refl,
      ground arith,
    )
    | inr busy ↦
        let ne : count r ≢ 0 = ground arith in
        (
          record {
            status = success;
            item = some (get_or r.slots (r.cons.tail % size r) 0);
            ring = taken r;
          },
          rw (dequeue-taken, busy) refl,
          taken-IsValid ne,
          refl,
          rw (contents-taken ne) refl,
        )
  ]

-- A caller's requests against the ring; `none` if some call does not end.
unfoldable pub run : ℕ → Ring → List Op → Option (List Reply)
run fuel r [] = some []
run fuel r (put x ∷ ops) = elim (enqueue fuel r x) [
  | none ↦ none
  | some (s, r') ↦ Option.map (λ rest. (s, none) ∷ rest) (run fuel r' ops)
]
run fuel r (get ∷ ops) = elim (dequeue fuel r) [
  | none ↦ none
  | some d ↦ Option.map (λ rest. (d.status, d.item) ∷ rest) (run fuel d.ring ops)
]

-- Over any sequence of requests by one thread, a valid ring ends every call and answers exactly as
-- the first-in first-out queue of its contents with room for `mask` items.
pub run_refines :
    (fuel : ℕ) (ops : List Op) {r : Ring}
    → IsValid r
    → run (suc fuel) r ops ≡ some (Queue.run r.prod.mask (contents r) ops)
unfolding run Queue.run
run_refines fuel [] v = refl
run_refines fuel (put x ∷ ops) {r} v =
    let (s, r', e, v', m, step) = enqueue_refines v fuel x in
    rw (e, run, run_refines fuel ops v')
      (ap (λ k. some ((s, none) ∷ Queue.run k (contents r') ops)) m
        ∙ ap (λ (p : Status × List ℕ). some ((p.0, none) ∷ Queue.run r.prod.mask p.1 ops)) step)
run_refines fuel (get ∷ ops) {r} v =
    let (d, e, v', m, step) = dequeue_refines v fuel in
    rw (e, run, run_refines fuel ops v')
      (ap (λ k. some ((d.status, d.item) ∷ Queue.run k (contents d.ring) ops)) m
        ∙ ap (λ (p : Status × Option ℕ × List ℕ). some ((p.0, p.1) ∷ Queue.run r.prod.mask p.2 ops))
            step)
