-- ===== src/Ring/Window.antt =====
-- Ring slots read in order: the items from a free-running index on, round the slots.
use native.Mathlib.Nat.{mod-add-mod, mod-eq_of_lt, mod-eq-sub-mod, mod-lt}
use simp_dserver.Prelude.{
  ℕ, zero, suc, ◌+◌, ◌-◌, ◌%◌, ◌≤◌, ◌<◌, ◌≡◌, ◌≢◌, refl, sym, ◌∙◌, ap, ap₂, List, [], ◌∷◌, ◌++◌,
  some, arith, dec_lt, length, get_elem?, get_or, set,
}

pub get_elem?-eq-get_or :
    (xs : List ℕ) (i : ℕ) → i < length xs → get_elem? xs i ≡ some (get_or xs i 0)
get_elem?-eq-get_or [] i lt = absurd (omega arith)
get_elem?-eq-get_or (x ∷ xs) zero lt = refl
get_elem?-eq-get_or (x ∷ xs) (suc i) lt = get_elem?-eq-get_or xs i (omega arith)

get_or-set_self : (xs : List ℕ) (i v : ℕ) → i < length xs → get_or (set xs i v) i 0 ≡ v
get_or-set_self [] i v lt = absurd (omega arith)
get_or-set_self (x ∷ xs) zero v lt = refl
get_or-set_self (x ∷ xs) (suc i) v lt = get_or-set_self xs i v (omega arith)

get_or-set_ne : (xs : List ℕ) (i j v : ℕ) → i ≢ j → get_or (set xs i v) j 0 ≡ get_or xs j 0
get_or-set_ne [] i j v ne = refl
get_or-set_ne (x ∷ xs) zero zero v ne = absurd (ne refl)
get_or-set_ne (x ∷ xs) zero (suc j) v ne = refl
get_or-set_ne (x ∷ xs) (suc i) zero v ne = refl
get_or-set_ne (x ∷ xs) (suc i) (suc j) v ne = get_or-set_ne xs i j v (λ e. ne (ap suc e))

module _ (size : ℕ) where
  -- the `n` items from index `h` on
  abbrev pub window : List ℕ → ℕ → ℕ → List ℕ
  window slots h zero = []
  window slots h (suc n) = get_or slots (h % size) 0 ∷ window slots (h + 1) n

  pub length-window : (slots : List ℕ) (h n : ℕ) → length (window slots h n) ≡ n
  length-window slots h zero = refl
  length-window slots h (suc n) = ap suc (length-window slots (h + 1) n)

  -- Only the index's remainder counts.
  pub window_congr :
      (slots : List ℕ) (h g n : ℕ) → h % size ≡ g % size → window slots h n ≡ window slots g n
  window_congr slots h g zero e = refl
  window_congr slots h g (suc n) e =
      ap₂ ◌∷◌ (ap (λ i. get_or slots i 0) e) (window_congr slots (h + 1) (g + 1) n next)
    where
      next : (h + 1) % size ≡ (g + 1) % size
      next = sym (mod-add-mod h size 1) ∙ ap (λ i. (i + 1) % size) e ∙ mod-add-mod g size 1

  -- Fewer than `size` steps do not come back to the same slot.
  steps-ne : (h k : ℕ) → 0 < size → suc k < size → (h + suc k) % size ≢ h % size
  steps-ne h k pos lt = rw (← mod-add-mod h size (suc k)) (go (h % size) (mod-lt h pos))
    where
      go : (b : ℕ) → b < size → (b + suc k) % size ≢ b
      go b below = elim (dec_lt (b + suc k) size) [
        | yes p ↦ omega (arith, mod-eq_of_lt p)
        | no p ↦ omega (
          arith,
          mod-eq-sub-mod {n = b + suc k} {m = size} (omega arith),
          mod-eq_of_lt {n = b + suc k - size} {m = size} (omega arith),
        )
      ]

  -- A write just past the window extends it by that item.
  pub window-set :
      (slots : List ℕ) (x n h i : ℕ)
      → size ≤ length slots
      → n < size
      → i ≡ (h + n) % size
      → window (set slots i x) h (suc n) ≡ window slots h n ++ (x ∷ [])
  window-set slots x zero h i room lt e =
      ap (λ v. v ∷ []) (rw (← here) (get_or-set_self slots i x (omega (arith, mod-lt h lt))))
    where
      here : i ≡ h % size
      here = e ∙ ap (λ k. k % size) (omega arith)
  window-set slots x (suc n) h i room lt e =
      ap₂ ◌∷◌ (get_or-set_ne slots i (h % size) x (rw e (steps-ne h n (omega arith) lt)))
        (window-set slots x n (h + 1) i room (omega arith) (e ∙ ap (λ k. k % size) (omega arith)))

-- `window` matches on the count, the code tests it.
pub window_of_ne_zero :
    (size : ℕ) (slots : List ℕ) (h n : ℕ)
    → n ≢ 0
    → window size slots h n ≡ get_or slots (h % size) 0 ∷ window size slots (h + 1) (n - 1)
window_of_ne_zero size slots h zero ne = absurd (ne refl)
window_of_ne_zero size slots h (suc n) ne = ap (λ k. window size slots h (suc k)) (omega arith)
