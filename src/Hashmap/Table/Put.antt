-- ===== src/Hashmap/Table/Put.antt =====
-- A map with one more domain, the first address of a domain being the one that stays.
use simp_dserver.Prelude.{
  ℕ, ◌≡◌, ◌≢◌, refl, sym, ap, ◌∙◌, arith, none, some, Option, List, [], ◌∷◌, ◌↔◌, ◌⊎◌, inl, inr,
  ◌==◌, if◌then◌else◌, Bool, Bool-cases, true, false,
}
use simp_dserver.Hashmap.Table.{Host}

-- The same bytes.
abbrev pub same_text : List ℕ → List ℕ → Bool
same_text [] [] = true
same_text [] (d ∷ ds) = false
same_text (c ∷ cs) [] = false
same_text (c ∷ cs) (d ∷ ds) = let rest = same_text cs ds in if c == d then rest else false

same_text_refl : (a : List ℕ) → same_text a a ≡ true
same_text_refl [] = refl
same_text_refl (c ∷ cs) = ground (arith, same_text_refl cs)

pub same_text_sound : (a b : List ℕ) → same_text a b ≡ true → a ≡ b
same_text_sound [] [] e = refl
same_text_sound [] (d ∷ ds) e = ground arith
same_text_sound (c ∷ cs) [] e = ground arith
same_text_sound (c ∷ cs) (d ∷ ds) e = ground (arith, same_text_sound cs ds)

-- The map with one more domain, and the map after an insertion: the first address of a domain stays.
abbrev pub added : Host → List ℕ → ℕ → Host
added f d ip e = if same_text e d then some ip else f e

abbrev pub put_new : Host → List ℕ → ℕ → Host
put_new f d ip e = elim (f d) [ none ↦ added f d ip e | some jp ↦ f e ]

abbrev pub is_new : Option ℕ → Bool
is_new none = true
is_new (some ip) = false

pub none-some : (ip : ℕ) → ¬ (none ≡ some ip)
none-some ip e = ground arith

pub some-injective : (a b : ℕ) → some a ≡ some b → a ≡ b
some-injective a b e = ground arith

module _ (f : Host) (d : List ℕ) (ip : ℕ) where
  pub put_new-old : (jp : ℕ) → f d ≡ some jp → (e : List ℕ) → put_new f d ip e ≡ f e
  put_new-old jp old e = rw (put_new, old) refl

  pub put_new_self : f d ≡ none → put_new f d ip d ≡ some ip
  put_new_self free = rw (put_new, free, same_text_refl d) refl

  pub put_new-other : f d ≡ none → (e : List ℕ) → d ≢ e → put_new f d ip e ≡ f e
  put_new-other free e ne = elim (Bool-cases (same_text e d)) [
    | inl same ↦ absurd (ne (sym (same_text_sound e d same)))
    | inr other ↦ rw (put_new, free, other) refl
  ]

module _ (f : Host) (d : List ℕ) (ip : ℕ) (free : f d ≡ none) where
  pub put_new_iff :
      (e : List ℕ) (jp : ℕ)
      → (((d ≡ e) × (ip ≡ jp)) ⊎ (f e ≡ some jp)) ↔ (put_new f d ip e ≡ some jp)
  put_new_iff e jp = (
    λ it. elim it [
      | inl (same, eq) ↦ ap (put_new f d ip) (sym same) ∙ put_new_self f d ip free ∙ ap some eq
      | inr old ↦
          put_new-other f d ip free e (λ same. none-some jp (sym free ∙ ap f same ∙ old)) ∙ old
    ],
    λ it. elim (Bool-cases (same_text e d)) [
      | inl same ↦
          let is_d = sym (same_text_sound e d same) in
          inl (
            is_d,
            some-injective ip jp (sym (put_new_self f d ip free) ∙ ap (put_new f d ip) is_d ∙ it),
          )
      | inr other ↦ inr (sym (rw (put_new, free, other) refl) ∙ it)
    ],
  )
