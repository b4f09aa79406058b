-- ===== src/Forward/Flags.antt =====
-- net_forward.c, `net_forward_module_inside_gethostaddr`: the flags of a request can be set where they
-- lie inside it.
use simp_dserver.Prelude.{
  ℕ, zero, suc, ◌+◌, ◌*◌, ◌/◌, ◌%◌, ◌<◌, ◌≡◌, refl, ap, arith, some, List, [], ◌∷◌, length,
  get_elem?, bit_or,
}
use simp_dserver.Prelude.Faults.{store}
use simp_dserver.Message.{load16, store16, or16}

get_elem?-some : (xs : List ℕ) (i : ℕ) → i < length xs → (b : ℕ) × (get_elem? xs i ≡ some b)
get_elem?-some [] i h = absurd (omega arith)
get_elem?-some (x ∷ xs) zero h = (x, refl)
get_elem?-some (x ∷ xs) (suc i) h = get_elem?-some xs i (omega arith)

store-some :
    (xs : List ℕ) (i b : ℕ)
    → i < length xs
    → (ys : List ℕ) × (store xs i b ≡ some ys) × (length ys ≡ length xs)
unfolding store
store-some [] i b h = absurd (omega arith)
store-some (x ∷ xs) zero b h = (b ∷ xs, refl, refl)
store-some (x ∷ xs) (suc i) b h =
    let (ys, e, len) = store-some xs i b (omega arith) in (x ∷ ys, rw e refl, ap suc len)

pub or16-some :
    (xs : List ℕ) (i v : ℕ) → i + 1 < length xs → (ys : List ℕ) × (or16 xs i v ≡ some ys)
unfolding or16 load16 store16
or16-some xs i v h =
    let (lo, at_lo) = get_elem?-some xs i (omega arith) in
    let (hi, at_hi) = get_elem?-some xs (i + 1) h in
    let (ys, first, len) = store-some xs i (bit_or (lo + 256 * hi) v % 256) (omega arith) in
    let (zs, second, _) =
      store-some ys (i + 1) (bit_or (lo + 256 * hi) v / 256 % 256) (omega arith) in
    (zs, rw (at_lo, at_hi, first) second)
