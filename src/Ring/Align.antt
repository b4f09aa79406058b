-- ===== src/Ring/Align.antt =====
-- net_ring_common.c, `align_pow2` and `create`: the number of slots.
use native.Mathlib.Nat.{pow-suc, pow-le-pow_right}
use simp_dserver.Prelude.{
  ℕ, zero, suc, ◌+◌, ◌*◌, ◌^◌, ◌≤◌, ◌<◌, ◌≡◌, refl, ◌∙◌, ap, ◌⊎◌, inl, inr, some, arith, Bool-cases,
  leb, true, dec_lt,
}
use simp_dserver.Ring.{align_loop, align_pow2}

-- `t` is the least power of two above `num`, at least 2.
pub record IsSlotCount (num t : ℕ) : Type 0 where
  pub exponent : ℕ
  pub power : t ≡ 2 ^ exponent
  pub one_le : 1 ≤ exponent
  pub exponent_le : exponent ≤ 29
  pub above : num < t
  pub least : (exponent ≡ 1) ⊎ (t ≤ 2 * num)

pow-add-one : (k : ℕ) → 2 ^ (k + 1) ≡ 2 ^ k * 2
pow-add-one k = ap (λ (n : ℕ). 2 ^ n) (omega arith) ∙ pow-suc 2 k

late_le : (offset : ℕ) → ¬ (offset < 29) → 29 ≤ offset
late_le offset late = omega arith

stops :
    (num offset : ℕ)
    → offset < 29
    → num < 2 ^ (offset + 1)
    → (offset ≡ 0) ⊎ (2 ^ offset ≤ num)
    → IsSlotCount num (2 ^ (offset + 1))
stops num offset lt below start = record {
  exponent = offset + 1;
  power = refl;
  one_le = omega arith;
  exponent_le = omega arith;
  above = below;
  least = elim start [
    | inl e ↦ inl (omega arith)
    | inr le ↦ inr (omega (arith, pow-add-one offset))
  ];
}

-- A round that starts has its two shifts below 31.
offset-lt : (num offset : ℕ) → num < 2 ^ 29 → (offset ≡ 0) ⊎ (2 ^ offset ≤ num) → offset < 29
offset-lt num offset below start = elim start [
  | inl e ↦ omega arith
  | inr le ↦ elim (dec_lt offset 29) [
    | yes early ↦ early
    | no late ↦
        absurd
          (omega (arith, below, le, pow-le-pow_right {n = 2} (omega arith) (late_le offset late)))
  ]
]

align_loop-IsSlotCount :
    (fuel num offset : ℕ)
    → num < 2 ^ 29
    → offset + fuel ≡ 30
    → (offset ≡ 0) ⊎ (2 ^ offset ≤ num)
    → (t : ℕ) × (align_loop fuel num offset ≡ some t) × IsSlotCount num t
unfolding align_loop
align_loop-IsSlotCount zero num offset below sum start =
    let early = offset-lt num offset below start in absurd (omega arith)
align_loop-IsSlotCount (suc f) num offset below top start =
    let early = offset-lt num offset below start in
    let shift : leb (offset + 2) 30 ≡ true = ground (arith, early) in
    elim (Bool-cases (leb (2 ^ (offset + 1)) num)) [
      | inl more ↦
          rw (shift, more)
            (align_loop-IsSlotCount f num (offset + 1) below (omega arith) (inr (ground arith)))
      | inr stop ↦
          rw (shift, stop) (2 ^ (offset + 1), refl, stops num offset early (ground arith) start)
    ]

-- For every request below 2 ^ 29, `align_pow2` returns without an undefined shift, and its result
-- is the least power of two that is greater than the request and at least 2.
pub align_pow2-IsSlotCount :
    (num : ℕ) → num < 2 ^ 29 → (t : ℕ) × (align_pow2 num ≡ some t) × IsSlotCount num t
unfolding align_pow2
align_pow2-IsSlotCount num below = align_loop-IsSlotCount 30 num 0 below refl (inl refl)
