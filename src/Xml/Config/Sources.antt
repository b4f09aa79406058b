-- ===== src/Xml/Config/Sources.antt =====
-- net_xml_config.c, the loop over `IPSource`: against the list of the elements with that name.
use simp_dserver.Prelude.{
  ℕ, zero, suc, ◌<◌, ◌≡◌, refl, inl, inr, arith, Bool, Option, some, List, [], ◌∷◌, if◌then◌else◌,
  Bool-cases, Option-cases,
}
use simp_dserver.Prelude.Faults.{◌>>=◌}
use simp_dserver.Hashmap.Memory.{Ptr, Heap}
use simp_dserver.Xml.{Document, Name, search_next}
use simp_dserver.Xml.Path.{
  Forest, empty, tree, Shows, size, head_ptr, find, search_list-find, not_null,
}
use simp_dserver.Xml.Config.{codes, add_source, add_sources}

module _ (same : List ℕ → Name → Bool) (inet_pton : List ℕ → Option ℕ) (atoi : List ℕ → ℕ)
    (malloc : Heap → Ptr) where
  -- The siblings with the name.
  unfoldable pub named : Name → Forest → List Ptr
  named v empty = []
  named v (tree q name kids rest) = if same name v then q ∷ named v rest else named v rest

  -- Their hosts go into the map one after the other.
  unfoldable pub add_all : ℕ → Document → List Ptr → Heap → Option Heap
  add_all fuel t [] m = some m
  add_all fuel t (p ∷ ps) m = do
    m' ← add_source same inet_pton atoi malloc fuel t p m
    add_all fuel t ps m'

  pub add_sources-add_all :
      (f : Forest) (rounds fuel : ℕ) (t : Document) (p : Ptr) (m : Heap)
      → Shows t p f
      → size f < rounds
      → size f < fuel
      → add_sources same inet_pton atoi malloc rounds fuel t
          (head_ptr (find same f (some (codes "IPSource"))))
          m
        ≡ add_all fuel t (named (some (codes "IPSource")) f) m
  unfolding add_sources named add_all find search_next
  add_sources-add_all f zero fuel t p m shows fits few = absurd (omega arith)
  add_sources-add_all empty (suc n) fuel t p m shows fits few = refl
  add_sources-add_all (tree q name kids rest) (suc n) fuel t p m (here, ne, is_name, down, right)
        fits few =
      let (run, there, small) =
        search_list-find same fuel t (t.next p) rest (some (codes "IPSource")) right
          (omega arith) in
      elim (Bool-cases (same name (some (codes "IPSource")))) [
        | inl hit ↦ elim (Option-cases (add_source same inet_pton atoi malloc fuel t p m)) [
          | inl fault ↦ rw (hit, ← here, not_null p ne, ◌>>=◌, fault) refl
          | inr (m', added) ↦
              rw (hit, ← here, not_null p ne, ◌>>=◌, added, run)
                (add_sources-add_all rest n fuel t (t.next p) m' right (omega arith) (omega arith))
        ]
        | inr miss ↦
            rw miss (
              add_sources-add_all rest (suc n) fuel t (t.next p) m right (omega arith)
                (omega arith))
      ]
