-- ===== src/Ring/Inv.antt =====
-- The state of a ring between calls, and what it stands for.
use Prim.Native.Nat.{◌∣◌}
use native.Mathlib.Nat.{pow-suc, dvd_refl, dvd-mul_right_of_dvd, pow-le-pow_right}
use mathlib.Core.Path.{subst}
use simp_dserver.Prelude.{
  ℕ, zero, suc, ◌+◌, ◌-◌, ◌%◌, ◌^◌, ◌≤◌, ◌<◌, ◌≡◌, refl, sym, ap, ◌∙◌, true, some, List, [], arith,
  length, length-replicate, bit_and,
}
use simp_dserver.Prelude.Words.{sub32}
use simp_dserver.Prelude.Bits.{bit_and_mask}
use simp_dserver.Ring.{Ring, fresh, create, init_npool}
use simp_dserver.Ring.Align.{IsSlotCount, align_pow2-IsSlotCount}
use simp_dserver.Ring.Window.{window}

-- The number of slots; one less than it can be filled.
abbrev pub size : Ring → ℕ
size r = r.prod.mask + 1

-- The number of items stored, with the free-running indices wrapped at 2 ^ 32.
abbrev pub count : Ring → ℕ
count r = sub32 r.prod.tail r.cons.tail

abbrev pub contents : Ring → List ℕ
contents r = window (size r) r.slots r.cons.tail (count r)

pub record IsValid (r : Ring) : Type 0 where
  pub exponent : ℕ
  pub exponent_le : exponent ≤ 30
  pub power : r.prod.mask + 1 ≡ 2 ^ exponent
  pub same_mask : r.cons.mask ≡ r.prod.mask
  pub same_size : (r.prod.size ≡ r.prod.mask + 1) × (r.cons.size ≡ r.prod.mask + 1)
  pub storage : length r.slots ≡ r.prod.mask + 1
  pub prod_lt : r.prod.head < 2 ^ 32
  pub cons_lt : r.cons.head < 2 ^ 32
  pub prod_idle : r.prod.tail ≡ r.prod.head
  pub cons_idle : r.cons.tail ≡ r.cons.head
  pub fits : sub32 r.prod.tail r.cons.tail ≤ r.prod.mask

pow-dvd-pow : (k d : ℕ) → 2 ^ k ∣ 2 ^ (d + k)
pow-dvd-pow k zero = subst (λ n. 2 ^ k ∣ 2 ^ n) (omega arith) (dvd_refl (2 ^ k))
pow-dvd-pow k (suc d) =
    subst (λ n. 2 ^ k ∣ n) (sym (pow-suc 2 (d + k)) ∙ ap (λ (n : ℕ). 2 ^ n) (omega arith))
      (dvd-mul_right_of_dvd (2 ^ k) (pow-dvd-pow k d) 2)

module _ {r : Ring} (v : IsValid r) where
  pub size-dvd-word : size r ∣ 2 ^ 32
  size-dvd-word = rw (v.power) (
      subst (λ n. 2 ^ v.exponent ∣ 2 ^ n) {y = 32} (omega (arith, v.exponent_le))
        (pow-dvd-pow v.exponent (32 - v.exponent)))

  -- `& mask` is the remainder by the number of slots.
  pub bit_and-mask : (i : ℕ) → bit_and i r.prod.mask ≡ i % size r
  bit_and-mask i = rw v.power (ap (bit_and i) (omega (arith, v.power)) ∙ bit_and_mask v.exponent i)

  pub mask-lt : r.prod.mask < 2 ^ 30
  mask-lt = omega (arith, v.power, pow-le-pow_right {n = 2} (omega arith) v.exponent_le)

fresh-IsValid : (num t : ℕ) → IsSlotCount num t → IsValid (fresh t)
unfolding fresh
fresh-IsValid num t s = record {
  exponent = s.exponent;
  exponent_le = omega (arith, s.exponent_le);
  power = omega (arith, s.above, s.power);
  same_mask = refl;
  same_size = omega (arith, s.above);
  storage = omega (arith, s.above, length-replicate {A = ℕ} t 0);
  prod_lt = omega arith;
  cons_lt = omega arith;
  prod_idle = refl;
  cons_idle = refl;
  fits = omega arith;
}

-- For every request below 2 ^ 29 and with memory available, `create` returns a ring that is valid,
-- empty, and has room for at least as many items as were asked for.
pub create-IsValid :
    (nem : ℕ)
    → nem < 2 ^ 29
    → (r : Ring) × (create true nem ≡ some (some r))
      × IsValid r
      × (contents r ≡ [])
      × (nem ≤ r.prod.mask)
unfolding create fresh
create-IsValid nem below =
    let (t, e, slots) = align_pow2-IsSlotCount nem below in
    (fresh t, rw (e, init_npool) refl, fresh-IsValid nem t slots, refl, omega (arith, slots.above))
