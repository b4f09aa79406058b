-- ===== src/Hashmap/Text/Hash.antt =====
-- net_hashmap_core.c, `net_hashmap_core_module_inside_hash`: it names a bucket.
use simp_dserver.Prelude.{
  ℕ, zero, suc, ◌%◌, ◌^◌, ◌≤◌, ◌<◌, ◌≡◌, refl, ap, arith, some, List, [], ◌∷◌, length,
}
use simp_dserver.Prelude.Bits.{bit_and_mask}
use simp_dserver.Prelude.Words.{add32, shl32}
use simp_dserver.Hashmap.Text.{hash, hash_loop, sign_extend, array_size}

hash_loop-some :
    (len : ℕ) (str : List ℕ) (acc : ℕ)
    → len ≤ length str
    → (h : ℕ) × (hash_loop len str acc ≡ some h)
unfolding hash_loop
hash_loop-some zero str acc fits = (acc, refl)
hash_loop-some (suc len) [] acc fits = absurd (omega arith)
hash_loop-some (suc len) (c ∷ str) acc fits =
    hash_loop-some len str (add32 (add32 (shl32 acc 5) acc) (sign_extend c)) (omega arith)

-- Hashing the first `len` bytes of a string that has as many ends without a fault, and gives the
-- index of one of the trees.
pub hash-lt :
    (str : List ℕ) (len : ℕ)
    → len ≤ length str
    → (h : ℕ) × (hash str len ≡ some h) × (h < array_size)
unfolding hash
hash-lt str len fits =
    let (acc, run) = hash_loop-some len str 5381 fits in
    (acc % 2 ^ 10, rw (run, hash) (ap some (bit_and_mask 10 acc)), omega arith)
