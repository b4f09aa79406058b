-- ===== src/Ring/Tests.antt =====
-- Runs of the ring at small inputs, and the theorems at a ring whose indices have wrapped.
use simp_dserver.Prelude.{
  ℕ, ◌-◌, ◌^◌, ◌≤◌, ◌≡◌, refl, true, false, none, some, List, [], ◌∷◌, arith,
}
use simp_dserver.Ring.{Ring, success, failure, align_pow2, create, enqueue, dequeue}
use simp_dserver.Ring.Align.{IsSlotCount, align_pow2-IsSlotCount}
use simp_dserver.Ring.Inv.{IsValid, contents, create-IsValid}
use simp_dserver.Ring.Queue
use simp_dserver.Ring.Queue.{Op, put, get}
use simp_dserver.Ring.Refine.{run, run_refines}

-- Four slots, two items (5 and 6) stored across the wrap of the 32-bit indices.
abbrev wrapped : Ring
wrapped = record {
  prod = record { watermark = 4; size = 4; mask = 3; head = 1; tail = 1 };
  cons = record { size = 4; mask = 3; head = 2 ^ 32 - 1; tail = 2 ^ 32 - 1 };
  slots = 6 ∷ 0 ∷ 9 ∷ 5 ∷ [];
}

wrapped-IsValid : IsValid wrapped
wrapped-IsValid = record {
  exponent = 2;
  exponent_le = omega arith;
  power = refl;
  same_mask = refl;
  same_size = (refl, refl);
  storage = refl;
  prod_lt = omega arith;
  cons_lt = omega arith;
  prod_idle = refl;
  cons_idle = refl;
  fits = omega arith;
}

abbrev script : List Op
script = put 7 ∷ put 8 ∷ get ∷ get ∷ get ∷ get ∷ []

work_ring_slots : align_pow2 (2 ^ 12) ≡ some (2 ^ 13)
unfolding align_pow2
work_ring_slots = refl

no_memory : create false 3 ≡ some none
unfolding create align_pow2
no_memory = refl

run-wrapped :
    run 1 wrapped script
    ≡ some (
        (success, none)
        ∷ (failure, none)
        ∷ (success, some 5)
        ∷ (success, some 6)
        ∷ (success, some 7)
        ∷ (failure, none)
        ∷ [])
unfolding run enqueue dequeue
run-wrapped = refl

-- A producer that finds another one between its claim and its store of `tail` waits for ever when
-- that one never runs again.
enqueue_waits :
    enqueue 9 (record wrapped { prod = record (wrapped.prod) { head = 1; tail = 0 } }) 7 ≡ none
unfolding enqueue
enqueue_waits = refl

-- From 2 ^ 29 on, `mark2` is an undefined shift.
align_pow2-shift : align_pow2 (2 ^ 29) ≡ none
unfolding align_pow2
align_pow2-shift = refl

align_pow2-IsSlotCount_example : (t : ℕ) × (align_pow2 4096 ≡ some t) × IsSlotCount 4096 t
align_pow2-IsSlotCount_example = align_pow2-IsSlotCount 4096 (omega arith)

create-IsValid_example :
    (r : Ring) × (create true 4096 ≡ some (some r))
    × IsValid r
    × (contents r ≡ [])
    × (4096 ≤ r.prod.mask)
create-IsValid_example = create-IsValid 4096 (omega arith)

run_refines_example : run 1 wrapped script ≡ some (Queue.run 3 (5 ∷ 6 ∷ []) script)
run_refines_example = run_refines 0 script wrapped-IsValid
