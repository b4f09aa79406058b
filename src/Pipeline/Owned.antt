-- ===== src/Pipeline/Owned.antt =====
-- Lists of pointers of which each pointer is in one at most, and then once, and is allocated.
use simp_dserver.Prelude.{
  one_if, ℕ, suc, ◌+◌, ◌≡◌, ◌≢◌, refl, sym, ap, ◌∙◌, arith, ◌⊎◌, inl, inr, Option, none, some, List,
  [], ◌∷◌, ◌++◌,
}
use simp_dserver.Message.{Node}
use simp_dserver.Hashmap.Memory.{Ptr, update}

abbrev pub count : ℕ → List ℕ → ℕ
count x [] = 0
count x (p ∷ ps) = one_if x p + count x ps

pub count-append : (x p : ℕ) (ps : List ℕ) → count x (ps ++ (p ∷ [])) ≡ one_if x p + count x ps
count-append x p [] = omega arith
count-append x p (q ∷ ps) = omega (arith, count-append x p ps)

-- `place` is 0 for a pointer in none of the lists, and `suc i` for one in the list `i`.
pub record Owned (nodes : Ptr → Option Node) (lists : ℕ → List Ptr) : Type 0 where
  pub place : Ptr → ℕ
  pub freed : (p : Ptr) → nodes p ≡ none → place p ≡ 0
  pub counts : (i : ℕ) (p : Ptr) → count p (lists i) ≡ one_if (place p) (suc i)

-- The list `i` has `p` once more in `big` than in `small`, and the other lists are the same.
pub record OneMore (i : ℕ) (p : Ptr) (small big : ℕ → List Ptr) : Type 0 where
  pub here : (x : Ptr) → count x (big i) ≡ one_if x p + count x (small i)
  pub others : (j : ℕ) → j ≢ i → big j ≡ small j

pub eq_cases : (a b : ℕ) → (a ≡ b) ⊎ (a ≢ b)
eq_cases a b = ground arith

at_place : (place : ℕ → ℕ) (p q : ℕ) {k : ℕ} → place p ≡ k → q ≡ p → place q ≡ k
at_place place p q e same = ap place same ∙ e

module _ {nodes : Ptr → Option Node} {lists lists' : ℕ → List Ptr} (o : Owned nodes lists) (i : ℕ)
    (p : Ptr) where
  -- A pointer that is taken from its list is allocated, and in no list any more.
  pub taken-Owned :
      OneMore i p lists' lists → (o' : Owned nodes lists') × (o'.place p ≡ 0) × (nodes p ≢ none)
  taken-Owned m =
      let was = o.counts i p in
      let once = m.here p in
      let at : o.place p ≡ suc i = ground arith in
      (
        record {
          place = update o.place p 0;
          freed = λ q e. let before = o.freed q e in ground arith;
          counts = λ j q. elim (eq_cases j i) [
            | inl e ↦ rw e (
                let here = m.here q in
                let count_q = o.counts i q in let place_q = at_place o.place p q at in ground arith)
            | inr ne ↦
                let same = ap (count q) (m.others j ne) in
                let count_q = o.counts j q in let place_q = at_place o.place p q at in ground arith
          ];
        },
        ground arith,
        λ e. let gone = o.freed p e in ground arith,
      )

  pub put-Owned : o.place p ≡ 0 → nodes p ≢ none → OneMore i p lists lists' → Owned nodes lists'
  put-Owned loose there m = record {
    place = update o.place p (suc i);
    freed = λ q e. elim (eq_cases q p) [
      | inl same ↦ absurd (there (ap nodes (sym same) ∙ e))
      | inr ne ↦ let before = o.freed q e in ground arith
    ];
    counts = λ j q. elim (eq_cases j i) [
      | inl e ↦ rw e (
          let here = m.here q in
          let count_q = o.counts i q in let place_q = at_place o.place p q loose in ground arith)
      | inr ne ↦
          let same = ap (count q) (m.others j ne) in
          let count_q = o.counts j q in let place_q = at_place o.place p q loose in ground arith
    ];
  }

module _ {nodes : Ptr → Option Node} {lists : ℕ → List Ptr} (o : Owned nodes lists) (p : Ptr) where
  pub set-Owned :
      (n : Node)
      → (o' : Owned (update nodes p (some n)) lists) × ((q : Ptr) → o'.place q ≡ o.place q)
  set-Owned n = (
    record { place = o.place; freed = λ q e. ground (arith, o.freed q); counts = o.counts },
    λ q. refl,
  )

  pub freed-Owned : o.place p ≡ 0 → Owned (update nodes p none) lists
  freed-Owned loose = record {
    place = o.place;
    freed = λ q e. elim (eq_cases q p) [
      | inl same ↦ ap o.place same ∙ loose
      | inr ne ↦ o.freed q (ground arith)
    ];
    counts = o.counts;
  }

  pub same-Owned : {lists' : ℕ → List Ptr} → ((i : ℕ) → lists' i ≡ lists i) → Owned nodes lists'
  same-Owned same = record {
    place = o.place;
    freed = o.freed;
    counts = λ i q. ap (count q) (same i) ∙ o.counts i q;
  }
