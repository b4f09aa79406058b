-- ===== src/Hashmap/Text/Order.antt =====
-- net_hashmap_core.c, `strcmp`: on strings of at most 512 bytes it is a total order.
use mathlib.Core.Path.{subst}
use simp_dserver.Prelude.{ℕ, ◌-◌, ◌≤◌, ◌<◌, ◌≡◌, ◌↔◌, refl, some, List, [], ◌∷◌, arith, length}
use simp_dserver.Hashmap.Text.{Sign, less, equal, greater, rank, strcmp_loop, strcmp, domain_len}

-- Bytes that are not the terminator.
abbrev pub IsText : List ℕ → Type 0
IsText [] = Unit
IsText (c ∷ cs) = (0 < c) × (c < 256) × IsText cs

rank-injective : (c d : ℕ) → c < 256 → d < 256 → rank c ≡ rank d → c ≡ d
rank-injective c d hc hd e = omega arith

abbrev flip : Sign → Sign
flip less = greater
flip equal = equal
flip greater = less

loop_refl : (a : List ℕ) (to : ℕ) → IsText a → length a ≤ to → strcmp_loop a a to ≡ equal
unfolding strcmp_loop
loop_refl [] to t fits = refl
loop_refl (c ∷ cs) to t fits = ground (arith, loop_refl cs (to - 1))

loop_flip :
    (a b : List ℕ) (to : ℕ)
    → IsText a
    → IsText b
    → length a ≤ to
    → length b ≤ to
    → strcmp_loop b a to ≡ flip (strcmp_loop a b to)
unfolding strcmp_loop
loop_flip [] [] to ta tb fa fb = refl
loop_flip [] (d ∷ ds) to ta tb fa fb = ground arith
loop_flip (c ∷ cs) [] to ta tb fa fb = ground arith
loop_flip (c ∷ cs) (d ∷ ds) to ta tb fa fb = ground (arith, loop_flip cs ds (to - 1))

loop_sound :
    (a b : List ℕ) (to : ℕ)
    → IsText a
    → IsText b
    → length a ≤ to
    → strcmp_loop a b to ≡ equal
    → a ≡ b
unfolding strcmp_loop
loop_sound [] [] to ta tb fa e = refl
loop_sound [] (d ∷ ds) to ta tb fa e = ground arith
loop_sound (c ∷ cs) [] to ta tb fa e = ground arith
loop_sound (c ∷ cs) (d ∷ ds) to ta tb fa e =
    ground (arith, loop_sound cs ds (to - 1), rank-injective c d)

loop_trans :
    (a b c : List ℕ) (to : ℕ)
    → IsText a
    → IsText b
    → IsText c
    → length a ≤ to
    → length b ≤ to
    → strcmp_loop a b to ≡ greater
    → strcmp_loop b c to ≡ greater
    → strcmp_loop a c to ≡ greater
unfolding strcmp_loop
loop_trans a [] [] to ta tb tc fa fb p q = ground arith
loop_trans a [] (z ∷ zs) to ta tb tc fa fb p q = ground arith
loop_trans [] (d ∷ ds) c to ta tb tc fa fb p q = ground arith
loop_trans (x ∷ xs) (d ∷ ds) [] to ta tb tc fa fb p q = ground arith
loop_trans (x ∷ xs) (d ∷ ds) (z ∷ zs) to ta tb tc fa fb p q =
    ground (arith, loop_trans xs ds zs (to - 1), rank-injective x d, rank-injective d z)

-- A domain that the map can hold: no terminator inside, and room for one in the array.
abbrev pub IsDomain : List ℕ → Type 0
IsDomain a = IsText a × (length a < domain_len)

-- `strcmp` of two domains is 0 exactly if they are the same bytes.
pub strcmp-equal_iff :
    (a b : List ℕ) → IsDomain a → IsDomain b → (strcmp (some a) (some b) ≡ equal) ↔ (a ≡ b)
unfolding strcmp
strcmp-equal_iff a b ta tb = (
  loop_sound a b domain_len ta.0 tb.0 (omega arith),
  λ e.
      subst (λ x. strcmp_loop a x domain_len ≡ equal) e (loop_refl a domain_len ta.0 (omega arith)),
)

-- Exchanging the domains exchanges 1 and -1.
pub strcmp_flip :
    (a b : List ℕ)
    → IsDomain a
    → IsDomain b
    → (strcmp (some a) (some b) ≡ greater) ↔ (strcmp (some b) (some a) ≡ less)
unfolding strcmp
strcmp_flip a b ta tb = (
  λ e. rw (loop_flip a b domain_len ta.0 tb.0 (omega arith) (omega arith), e) refl,
  λ e. rw (loop_flip b a domain_len tb.0 ta.0 (omega arith) (omega arith), e) refl,
)

pub strcmp_trans :
    (a b c : List ℕ)
    → IsDomain a
    → IsDomain b
    → IsDomain c
    → strcmp (some a) (some b) ≡ greater
    → strcmp (some b) (some c) ≡ greater
    → strcmp (some a) (some c) ≡ greater
unfolding strcmp
strcmp_trans a b c ta tb tc = loop_trans a b c domain_len ta.0 tb.0 tc.0 (omega arith) (omega arith)

-- On domains, `strcmp` is a strict total order: 0 exactly at the same bytes, the two signs
-- exchanged with the arguments, and transitive.
pub strcmp_order :
    (a b c : List ℕ)
    → IsDomain a
    → IsDomain b
    → IsDomain c
    → ((strcmp (some a) (some b) ≡ equal) ↔ (a ≡ b))
      × ((strcmp (some a) (some b) ≡ greater) ↔ (strcmp (some b) (some a) ≡ less))
      × (strcmp (some a) (some b) ≡ greater
          → strcmp (some b) (some c) ≡ greater
          → strcmp (some a) (some c) ≡ greater)
strcmp_order a b c ta tb tc =
    (strcmp-equal_iff a b ta tb, strcmp_flip a b ta tb, strcmp_trans a b c ta tb tc)
