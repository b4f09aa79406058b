-- ===== src/Xml/Path.antt =====
-- net_xml_common.c, `config_search4`: it follows a path of names in the tree of elements.
use simp_dserver.Prelude.{
  ℕ, zero, suc, ◌+◌, ◌<◌, ◌≡◌, ◌≢◌, refl, ◌∙◌, ap, inl, inr, arith, Bool, false, none, some, List,
  [], ◌∷◌, ◌==◌, if◌then◌else◌, Bool-cases,
}
use simp_dserver.Prelude.Faults.{◌>>=◌}
use simp_dserver.Hashmap.Memory.{Ptr, null}
use simp_dserver.Xml.{
  Document, Name, search_list, search_children, search_level3, search_level2, search4,
}

-- A list of sibling elements, each with its pointer, its name and the list of its children.
pub data Forest : Type 0 where
  empty : Forest
  tree : Ptr → List ℕ → (kids rest : Forest) → Forest

-- From `p` on, the document has these siblings.
abbrev pub Shows : Document → Ptr → Forest → Type 0
Shows t p empty = p ≡ null
Shows t p (tree q name kids rest) =
    (p ≡ q) × (p ≢ null) × (t.name p ≡ name) × Shows t (t.children p) kids × Shows t (t.next p) rest

abbrev pub size : Forest → ℕ
size empty = 0
size (tree q name kids rest) = suc (size kids + size rest)

abbrev pub head_ptr : Forest → Ptr
head_ptr empty = null
head_ptr (tree q name kids rest) = q

pub not_null : (p : Ptr) → p ≢ null → (p == null) ≡ false
not_null p ne = ground arith

module _ (same : List ℕ → Name → Bool) where
  -- The siblings from the first one with the name on.
  unfoldable pub find : Forest → Name → Forest
  find empty v = empty
  find (tree q name kids rest) v = if same name v then tree q name kids rest else find rest v

  -- From the first of the siblings, down the names: at each level to the first child with the name.
  unfoldable pub follow : List Name → Forest → Ptr
  unfolding find
  follow [] f = head_ptr f
  follow (v ∷ vs) empty = null
  follow (v ∷ vs) (tree q name kids rest) = follow vs (find kids v)

  -- The names after the first that the code looks at: up to the first NULL.
  unfoldable pub levels : Name → Name → List Name
  levels none f4 = []
  levels (some a) none = some a ∷ []
  levels (some a) (some b) = some a ∷ some b ∷ []

  pub search_list-find :
      (fuel : ℕ) (t : Document) (p : Ptr) (f : Forest) (v : Name)
      → Shows t p f
      → size f < fuel
      → (search_list same fuel t p v ≡ some (head_ptr (find f v)))
        × Shows t (head_ptr (find f v)) (find f v)
        × (size (find f v) < fuel)
  unfolding search_list find
  search_list-find zero t p f v shows fits = absurd (omega arith)
  search_list-find (suc n) t p empty v shows fits = (ground arith, refl, omega arith)
  search_list-find (suc n) t p (tree q name kids rest) v (here, ne, named, down, right) fits =
      let (run, there, small) = search_list-find n t (t.next p) rest v right (omega arith) in
      elim (Bool-cases (same name v)) [
        | inl hit ↦
            rw (← here, not_null p ne, named, hit) (refl, (refl, ne, named, down, right), fits)
        | inr miss ↦ rw (not_null p ne, named, miss) (run, there, omega arith)
      ]

  pub children-find :
      (fuel : ℕ) (t : Document) (p : Ptr) (f : Forest) (v : Name)
      → p ≢ null
      → Shows t (t.children p) f
      → size f < fuel
      → (search_children same fuel t p v ≡ some (head_ptr (find f v)))
        × Shows t (head_ptr (find f v)) (find f v)
        × (size (find f v) < fuel)
  unfolding search_children
  children-find fuel t p f v ne shows fits =
      rw (not_null p ne) (search_list-find fuel t (t.children p) f v shows fits)

  search_level3-follow :
      (fuel : ℕ) (t : Document) (f : Forest) (f4 : Name)
      → Shows t (head_ptr f) f
      → size f < fuel
      → search_level3 same fuel t (head_ptr f) f4 ≡ some (follow (levels f4 none) f)
  unfolding search_level3 levels follow
  search_level3-follow fuel t empty none shows fits = refl
  search_level3-follow fuel t empty (some b) shows fits = refl
  search_level3-follow fuel t (tree q name kids rest) none shows fits = ground arith
  search_level3-follow fuel t (tree q name kids rest) (some b) (_, ne, _, down, _) fits =
      rw (not_null q ne) ((children-find fuel t q kids (some b) ne down (omega arith)).0)

  level_two :
      (q : Ptr) (name : List ℕ) (kids rest : Forest) (b : List ℕ) (f4 : Name)
      → follow (levels f4 none) (find kids (some b))
        ≡ follow (levels (some b) f4) (tree q name kids rest)
  unfolding follow levels
  level_two q name kids rest b none = refl
  level_two q name kids rest b (some c) = refl

  search_level2-follow :
      (fuel : ℕ) (t : Document) (f : Forest) (f3 f4 : Name)
      → Shows t (head_ptr f) f
      → size f < fuel
      → search_level2 same fuel t (head_ptr f) f3 f4 ≡ some (follow (levels f3 f4) f)
  unfolding search_level2 levels follow
  search_level2-follow fuel t empty none f4 shows fits = refl
  search_level2-follow fuel t empty (some b) none shows fits = refl
  search_level2-follow fuel t empty (some b) (some c) shows fits = refl
  search_level2-follow fuel t (tree q name kids rest) none f4 shows fits = ground arith
  search_level2-follow fuel t (tree q name kids rest) (some b) f4 (_, ne, _, down, _) fits =
      let (run, there, small) = children-find fuel t q kids (some b) ne down (omega arith) in
      rw (not_null q ne, ◌>>=◌, run)
        (search_level3-follow fuel t (find kids (some b)) f4 there small
          ∙ ap some (level_two q name kids rest b f4))

  -- A search in a document whose root shows an element with these children, with fuel above the
  -- number of the elements, ends without a fault. It gives the node that the path of names leads to,
  -- each level taking the first child with its name, and NULL where the path breaks off or the root
  -- has another name. The path ends before the first name after the second that is NULL.
  pub search4-follow :
      (fuel : ℕ) (t : Document) (kids : Forest) (f1 f2 f3 f4 : Name)
      → t.root ≢ null
      → Shows t (t.children t.root) kids
      → size kids < fuel
      → search4 same fuel t f1 f2 f3 f4
        ≡ some (if same (t.name t.root) f1 then follow (levels f3 f4) (find kids f2) else null)
  unfolding search4
  search4-follow fuel t kids f1 f2 f3 f4 ne shows fits =
      let (run, there, small) = children-find fuel t (t.root) kids f2 ne shows fits in
      elim (Bool-cases (same (t.name t.root) f1)) [
        | inl named ↦
            rw (not_null (t.root) ne, named, ◌>>=◌, run)
              (search_level2-follow fuel t (find kids f2) f3 f4 there small)
        | inr other ↦ rw (not_null (t.root) ne, other) refl
      ]
