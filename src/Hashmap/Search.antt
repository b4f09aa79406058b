-- ===== src/Hashmap/Search.antt =====
-- net_hashmap_core.c, `inside_search`: it finds exactly what the tree holds.
use simp_dserver.Prelude.{
  ℕ, zero, suc, ◌<◌, ◌≡◌, ◌≢◌, refl, ◌⊎◌, inl, inr, arith, sym, ◌∙◌, some, List, ◌==◌, false,
}
use simp_dserver.Hashmap.{search_loop, inside_search}
use simp_dserver.Hashmap.Memory.{Ptr, null, Cell, Heap, ◌>>=◌, load, get_root}
use simp_dserver.Hashmap.Text.{Sign, less, equal, greater, strcmp}
use simp_dserver.Hashmap.Text.Order.{IsDomain, strcmp_flip, strcmp-equal_iff}
use simp_dserver.Hashmap.Tree.{
  Tree, node, height, Rep, leaf_rep, node_rep, Holds, IsSearchTree, greater_of_held, less_of_held,
}

-- The address that a search for `d` may give: the one held, or 0 where none is.
pub data Answers (t : Tree) (d : List ℕ) (v : ℕ) : Type 0 where
  present : Holds t d v → Answers t d v
  absent : v ≡ 0 → ((ip : ℕ) → ¬ (Holds t d ip)) → Answers t d v

pub load-some :
    (m : Heap) (p : Ptr) (c : Cell) → p ≢ null → m.cells p ≡ some c → load p m ≡ some (c, m)
unfolding load
load-some m p c ne e = ground arith

pub Sign-cases : (s : Sign) → (s ≡ less) ⊎ (s ≡ equal) ⊎ (s ≡ greater)
Sign-cases less = inl refl
Sign-cases equal = inr (inl refl)
Sign-cases greater = inr (inr refl)

pub not_null : (p : Ptr) → p ≢ null → (p == null) ≡ false
not_null p ne = ground arith

-- What the visit of a node does, by the comparison.
search_left :
    (f : ℕ) (d : List ℕ) (m : Heap) (p : Ptr) (c : Cell)
    → p ≢ null
    → m.cells p ≡ some c
    → strcmp (some d) (some c.domain) ≡ greater
    → search_loop (suc f) d p m ≡ search_loop f d c.left m
unfolding search_loop
search_left f d m p c ne at e = rw (not_null p ne, ◌>>=◌, load-some m p c ne at, e) refl

search_right :
    (f : ℕ) (d : List ℕ) (m : Heap) (p : Ptr) (c : Cell)
    → p ≢ null
    → m.cells p ≡ some c
    → strcmp (some d) (some c.domain) ≡ less
    → search_loop (suc f) d p m ≡ search_loop f d c.right m
unfolding search_loop
search_right f d m p c ne at e = rw (not_null p ne, ◌>>=◌, load-some m p c ne at, e) refl

search_here :
    (f : ℕ) (d : List ℕ) (m : Heap) (p : Ptr) (c : Cell)
    → p ≢ null
    → m.cells p ≡ some c
    → strcmp (some d) (some c.domain) ≡ equal
    → search_loop (suc f) d p m ≡ some (c.ipv4, m)
unfolding search_loop
search_here f d m p c ne at e = rw (not_null p ne, ◌>>=◌, load-some m p c ne at, e) refl

less-greater : less ≢ greater
less-greater e = ground arith

equal-less : equal ≢ less
equal-less e = ground arith

equal-greater : equal ≢ greater
equal-greater e = ground arith

-- A domain that compares greater with the node's is held, if at all, in the left tree; one that
-- compares less, in the right tree.
pub held_left :
    (l r : Tree) (p : Ptr) (c : Cell) (d : List ℕ) (ip : ℕ)
    → IsSearchTree (node p c.color c.domain c.ipv4 l r)
    → IsDomain d
    → strcmp (some d) (some c.domain) ≡ greater
    → Holds (node p c.color c.domain c.ipv4 l r) d ip
    → Holds l d ip
held_left l r p c d ip ordered dom high h = elim h [
  | inl (same, _) ↦
      absurd (equal-greater (sym ((strcmp-equal_iff d c.domain dom ordered.0).1 (sym same)) ∙ high))
  | inr (inl left) ↦ left
  | inr (inr right) ↦ absurd (
      less-greater (
        sym
          ((strcmp_flip c.domain d ordered.0 dom).0 (less_of_held c.domain d ip r ordered.2 right))
        ∙ high))
]

pub held_right :
    (l r : Tree) (p : Ptr) (c : Cell) (d : List ℕ) (ip : ℕ)
    → IsSearchTree (node p c.color c.domain c.ipv4 l r)
    → IsDomain d
    → strcmp (some d) (some c.domain) ≡ less
    → Holds (node p c.color c.domain c.ipv4 l r) d ip
    → Holds r d ip
held_right l r p c d ip ordered dom low h = elim h [
  | inl (same, _) ↦
      absurd (equal-less (sym ((strcmp-equal_iff d c.domain dom ordered.0).1 (sym same)) ∙ low))
  | inr (inl left) ↦
      absurd (less-greater (sym low ∙ greater_of_held c.domain d ip l ordered.1 left))
  | inr (inr right) ↦ right
]

Answers-left :
    (l r : Tree) (p : Ptr) (c : Cell) (d : List ℕ) (v : ℕ)
    → IsSearchTree (node p c.color c.domain c.ipv4 l r)
    → IsDomain d
    → strcmp (some d) (some c.domain) ≡ greater
    → Answers l d v
    → Answers (node p c.color c.domain c.ipv4 l r) d v
Answers-left l r p c d v ordered dom high (present h) = present (inr (inl h))
Answers-left l r p c d v ordered dom high (absent e none_held) =
    absent e (λ ip h. none_held ip (held_left l r p c d ip ordered dom high h))

Answers-right :
    (l r : Tree) (p : Ptr) (c : Cell) (d : List ℕ) (v : ℕ)
    → IsSearchTree (node p c.color c.domain c.ipv4 l r)
    → IsDomain d
    → strcmp (some d) (some c.domain) ≡ less
    → Answers r d v
    → Answers (node p c.color c.domain c.ipv4 l r) d v
Answers-right l r p c d v ordered dom low (present h) = present (inr (inr h))
Answers-right l r p c d v ordered dom low (absent e none_held) =
    absent e (λ ip h. none_held ip (held_right l r p c d ip ordered dom low h))

pub search_loop-Answers :
    (fuel : ℕ) (d : List ℕ) (m : Heap) {parent p : Ptr} {t : Tree}
    → Rep m.cells parent p t
    → IsSearchTree t
    → IsDomain d
    → height t < fuel
    → (v : ℕ) × (search_loop fuel d p m ≡ some (v, m)) × Answers t d v
unfolding search_loop
search_loop-Answers zero d m rep ordered dom enough = absurd (omega arith)
search_loop-Answers (suc f) d m leaf_rep ordered dom enough = (0, refl, absent refl (λ ip h. h))
search_loop-Answers (suc f) d m {p} (node_rep {l} {r} c ne at up lrep rrep) ordered dom enough =
    elim (Sign-cases (strcmp (some d) (some c.domain))) [
      | inl low ↦
          let (v, run, ans) = search_loop-Answers f d m rrep ordered.4 dom (ground arith) in
          (v, search_right f d m p c ne at low ∙ run, Answers-right l r p c d v ordered dom low ans)
      | inr (inl same) ↦ (
        c.ipv4,
        search_here f d m p c ne at same,
        present (inl (sym ((strcmp-equal_iff d c.domain dom ordered.0).0 same), refl)),
      )
      | inr (inr high) ↦
          let (v, run, ans) = search_loop-Answers f d m lrep ordered.3 dom (ground arith) in
          (v, search_left f d m p c ne at high ∙ run, Answers-left l r p c d v ordered dom high ans)
    ]

-- A search of a bucket that represents a search tree, with more fuel than the tree's height, ends
-- without a fault and leaves the memory as it is. It gives the address held with the domain, or 0
-- when the tree does not hold the domain.
pub inside_search-Answers :
    (fuel h : ℕ) (d : List ℕ) (m : Heap) (t : Tree)
    → Rep m.cells null (m.roots h) t
    → IsSearchTree t
    → IsDomain d
    → height t < fuel
    → (v : ℕ) × (inside_search fuel h d m ≡ some (v, m)) × Answers t d v
unfolding inside_search get_root
inside_search-Answers fuel h d m t rep ordered dom enough =
    search_loop-Answers fuel d m rep ordered dom enough
