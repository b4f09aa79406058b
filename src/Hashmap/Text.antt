-- ===== src/Hashmap/Text.antt =====
-- net_hashmap_core.c: the hash of a domain and the comparison of two. A string is the list of its
-- bytes; what follows the list in memory is a zero.
pub mod Hash
pub mod Order
use simp_dserver.Prelude.{
  ℕ, zero, suc, ◌+◌, ◌-◌, ◌%◌, ◌^◌, Option, none, some, List, [], ◌∷◌, ◌==◌, ltb, if◌then◌else◌,
  bit_and,
}
use simp_dserver.Prelude.Words.{add32, shl32}

abbrev pub array_size : ℕ
array_size = 2 ^ 10

-- A byte as a signed `char`, converted to `uint32_t`.
unfoldable pub sign_extend : ℕ → ℕ
sign_extend b = if ltb b 128 then b else 2 ^ 32 - 256 + b

-- The `while (len--)` loop; `none` is a read outside the string.
pub hash_loop : ℕ → List ℕ → ℕ → Option ℕ
unfolding sign_extend
hash_loop zero str hash = some hash
hash_loop (suc len) [] hash = none
hash_loop (suc len) (c ∷ str) hash =
    hash_loop len str (add32 (add32 (shl32 hash 5) hash) (sign_extend c))

-- `net_hashmap_core_module_inside_hash`
unfoldable pub hash : List ℕ → ℕ → Option ℕ
unfolding hash_loop
hash str len = elim (hash_loop len str 5381) [
  | none ↦ none
  | some h ↦ some (bit_and h (array_size - 1))
]

-- The `int` that the comparison returns: -1, 0 and 1.
pub data Sign : Type 0 where
  less equal greater : Sign

-- A signed `char` as a number that keeps the order: -128 is 0.
abbrev pub rank : ℕ → ℕ
rank b = (b + 128) % 256

-- After the `while` loop: what the next bytes are.
pub compare_ends : ℕ → ℕ → Sign
compare_ends c d = if c == 0 then (if d == 0 then equal else less) else greater

-- The `while` loop; `to` is the counter, which ends the comparison after 513 equal bytes.
pub strcmp_loop : List ℕ → List ℕ → ℕ → Sign
unfolding compare_ends
strcmp_loop [] [] to = equal
strcmp_loop [] (d ∷ ds) to = compare_ends 0 d
strcmp_loop (c ∷ cs) [] to = compare_ends c 0
strcmp_loop (c ∷ cs) (d ∷ ds) to =
    let rest = strcmp_loop cs ds (to - 1) in
    if c == 0
    then compare_ends c d
    else if d == 0
    then compare_ends c d
    else if ltb (rank d) (rank c)
    then greater
    else if ltb (rank c) (rank d)
    then less
    else if to == 0
    then less
    else rest

abbrev pub domain_len : ℕ
domain_len = 512

-- `net_hashmap_core_module_inside_strcmp`; `none` is NULL.
unfoldable pub strcmp : Option (List ℕ) → Option (List ℕ) → Sign
unfolding strcmp_loop
strcmp none b = less
strcmp (some a) none = greater
strcmp (some a) (some b) = strcmp_loop a b domain_len
