-- ===== src/Prelude/Bits.antt =====
-- `&` with a mask of low ones and `|` with a single bit, at variables.
use Prim.Native.Nat.{
  ℕ, zero, suc, ◌+◌, ◌-◌, ◌*◌, ◌/◌, ◌%◌, ◌^◌, ◌≤◌, ◌<◌, min, max, bit_and, bit_or, digits, bitwise,
  bit_and-bitwise, bit_or-bitwise,
}
use mathlib.Core.Path.{◌≡◌, refl, sym, ap, ◌∙◌}
use native.Mathlib.Nat.{
  pow-suc, one-le-pow, mod-eq_of_lt, add-mul-mod_self_right, div-add-mod', mod-lt,
}
use native.Mathlib.Decide.{dec_lt}
use native.Mathlib.Omega.{arith}

-- Any operation on two digits `f`, with `z` for what is left of the second number.
module _ (z : ℕ → ℕ) (f : ℕ → ℕ → ℕ) where
  -- A number has no more digits than itself, so a larger count changes nothing.
  one_more : (n a b : ℕ) → a ≤ n → digits z f (suc n) a b ≡ digits z f n a b
  one_more n zero b h = settled n
    where
      settled : (k : ℕ) → z b ≡ digits z f k zero b
      settled zero = refl
      settled (suc k) = refl
  one_more zero (suc a) b h = elim h [ ]
  one_more (suc n) (suc a) b h =
      ap (λ t. t * 2 + f (suc a % 2) (b % 2)) (one_more n (suc a / 2) (b / 2) (omega arith))

  stable : (n a b : ℕ) → a ≤ n → digits z f n a b ≡ digits z f a a b
  stable zero a b h = ap (λ k. digits z f k a b) {x = 0} {y = a} (omega arith)
  stable (suc n) a b h = elim (dec_lt n a) [
    | yes top ↦ ap (λ k. digits z f k a b) {x = suc n} {y = a} (omega arith)
    | no below ↦ one_more n a b (omega arith) ∙ stable n a b (omega arith)
  ]

  lowest_digit :
      (a b : ℕ)
      → bitwise z f (suc a) b ≡ bitwise z f (suc a / 2) (b / 2) * 2 + f (suc a % 2) (b % 2)
  lowest_digit a b =
      ap (λ t. t * 2 + f (suc a % 2) (b % 2)) (stable a (suc a / 2) (b / 2) (omega arith))

and_digit : (a b : ℕ) → bit_and a b ≡ bit_and (a / 2) (b / 2) * 2 + min (a % 2) (b % 2)
and_digit zero b = omega (arith, bit_and-bitwise 0 b, bit_and-bitwise 0 (b / 2))
and_digit (suc a) b =
    bit_and-bitwise (suc a) b
    ∙ lowest_digit (λ c. zero) min a b
    ∙ ap (λ t. t * 2 + min (suc a % 2) (b % 2)) (sym (bit_and-bitwise (suc a / 2) (b / 2)))

or_digit : (a b : ℕ) → bit_or a b ≡ bit_or (a / 2) (b / 2) * 2 + max (a % 2) (b % 2)
or_digit zero b = omega (arith, bit_or-bitwise 0 b, bit_or-bitwise 0 (b / 2))
or_digit (suc a) b =
    bit_or-bitwise (suc a) b
    ∙ lowest_digit (λ c. c) max a b
    ∙ ap (λ t. t * 2 + max (suc a % 2) (b % 2)) (sym (bit_or-bitwise (suc a / 2) (b / 2)))

-- The zero on the right, for every number up to a bound.
right_zero : (n a : ℕ) → a ≤ n → (bit_and a 0 ≡ 0) × (bit_or a 0 ≡ a)
right_zero n zero h = (bit_and-bitwise 0 0, bit_or-bitwise 0 0)
right_zero zero (suc a) h = elim h [ ]
right_zero (suc n) (suc a) h =
    omega (arith, and_digit (suc a) 0, or_digit (suc a) 0, right_zero n (suc a / 2) (omega arith))

-- Halving takes one digit off a remainder by a power of two.
mod_half : (p a : ℕ) → 0 < p → a % (p * 2) ≡ (a / 2 % p) * 2 + a % 2
mod_half p a pos =
    ap (λ n. n % (p * 2)) whole
    ∙ add-mul-mod_self_right (a / 2 % p * 2 + a % 2) (a / 2 / p) (p * 2)
    ∙ mod-eq_of_lt (omega (arith, mod-lt (a / 2) pos))
  where
    whole : a ≡ (a / 2 % p * 2 + a % 2) + a / 2 / p * (p * 2)
    whole = grind (arith, div-add-mod' (a / 2) p)

-- A mask of `k` ones is the remainder by `2 ^ k`.
pub bit_and_mask : (k a : ℕ) → bit_and a (2 ^ k - 1) ≡ a % 2 ^ k
bit_and_mask zero a = omega (arith, right_zero a a (omega arith))
bit_and_mask (suc k) a = rw (pow-suc 2 k) (
    ground (
      arith,
      and_digit a (2 ^ k * 2 - 1),
      one_le,
      mod_half (2 ^ k) a one_le,
      bit_and_mask k (a / 2),
    ))
  where
    one_le : 1 ≤ 2 ^ k
    one_le = one-le-pow k 2 (omega arith)

or_even : (v c : ℕ) → bit_or v (c * 2) ≡ bit_or (v / 2) c * 2 + v % 2
or_even v c = ground (arith, or_digit v (c * 2))

pub bit_or_bit0 : (v : ℕ) → bit_or v 1 ≡ v / 2 * 2 + 1
bit_or_bit0 v = omega (arith, or_digit v 1, right_zero (v / 2) (v / 2) (omega arith))

-- `|` with one bit sets that bit and keeps the others.
pub bit_or_bit7 : (v : ℕ) → bit_or v 0x80 ≡ v / 256 * 256 + 128 + v % 128
bit_or_bit7 v = omega (
  arith,
  or_even v 64,
  or_even (v / 2) 32,
  or_even (v / 2 / 2) 16,
  or_even (v / 2 / 2 / 2) 8,
  or_even (v / 2 / 2 / 2 / 2) 4,
  or_even (v / 2 / 2 / 2 / 2 / 2) 2,
  or_even (v / 2 / 2 / 2 / 2 / 2 / 2) 1,
  bit_or_bit0 (v / 2 / 2 / 2 / 2 / 2 / 2 / 2),
)

eighth : (v : ℕ) → v / 2 / 2 / 2 / 2 / 2 / 2 / 2 / 2 ≡ v / 256
eighth v = omega arith

-- The low byte of a word is not touched by a bit of the high byte.
or_high_byte : (v : ℕ) → bit_or v 0x8000 ≡ bit_or (v / 256) 0x80 * 256 + v % 256
or_high_byte v = omega (
  arith,
  or_even v 16384,
  or_even (v / 2) 8192,
  or_even (v / 2 / 2) 4096,
  or_even (v / 2 / 2 / 2) 2048,
  or_even (v / 2 / 2 / 2 / 2) 1024,
  or_even (v / 2 / 2 / 2 / 2 / 2) 512,
  or_even (v / 2 / 2 / 2 / 2 / 2 / 2) 256,
  or_even (v / 2 / 2 / 2 / 2 / 2 / 2 / 2) 128,
  ap (λ n. bit_or n 0x80) (eighth v),
)

pub bit_or_bit15 : (v : ℕ) → bit_or v 0x8000 ≡ v / 65536 * 65536 + 32768 + v % 32768
bit_or_bit15 v = omega (arith, or_high_byte v, bit_or_bit7 (v / 256))
