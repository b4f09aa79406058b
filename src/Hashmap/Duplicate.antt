-- ===== src/Hashmap/Duplicate.antt =====
-- net_hashmap_core.c, `inside_insert`: the descent, and a domain that is in the map already.
use simp_dserver.Prelude.{
  ℕ, zero, suc, ◌<◌, ◌≡◌, ◌≢◌, refl, sym, ◌∙◌, inl, inr, arith, some, List, false,
}
use simp_dserver.Hashmap.{
  Link, Place, found, vacant, root_link, left_link, right_link, descend, inside_insert,
}
use simp_dserver.Hashmap.Memory.{Ptr, null, Cell, Heap, ◌>>=◌, get_root}
use simp_dserver.Hashmap.Text.{less, equal, greater, strcmp}
use simp_dserver.Hashmap.Text.Order.{IsDomain, strcmp-equal_iff}
use simp_dserver.Hashmap.Tree.{Tree, node, height, Rep, leaf_rep, node_rep, Holds, IsSearchTree}
use simp_dserver.Hashmap.Search.{load-some, not_null, Sign-cases, held_left, held_right}

-- What the descent finds: a node only where the tree holds the domain.
data Finds (t : Tree) (d : List ℕ) : Place → Type 0 where
  hit : {q : Ptr} (ip : ℕ) → Holds t d ip → Finds t d (found q)
  miss :
      {parent : Ptr} {link : Link} → ((ip : ℕ) → ¬ (Holds t d ip)) → Finds t d (vacant parent link)

pub descend_left :
    (f : ℕ) (d : List ℕ) (m : Heap) (p parent : Ptr) (link : Link) (c : Cell)
    → p ≢ null
    → m.cells p ≡ some c
    → strcmp (some d) (some c.domain) ≡ greater
    → descend (suc f) d p parent link m ≡ descend f d c.left p (left_link p) m
unfolding descend
descend_left f d m p parent link c ne at e =
    rw (not_null p ne, ◌>>=◌, load-some m p c ne at, e) refl

pub descend_right :
    (f : ℕ) (d : List ℕ) (m : Heap) (p parent : Ptr) (link : Link) (c : Cell)
    → p ≢ null
    → m.cells p ≡ some c
    → strcmp (some d) (some c.domain) ≡ less
    → descend (suc f) d p parent link m ≡ descend f d c.right p (right_link p) m
unfolding descend
descend_right f d m p parent link c ne at e =
    rw (not_null p ne, ◌>>=◌, load-some m p c ne at, e) refl

descend_here :
    (f : ℕ) (d : List ℕ) (m : Heap) (p parent : Ptr) (link : Link) (c : Cell)
    → p ≢ null
    → m.cells p ≡ some c
    → strcmp (some d) (some c.domain) ≡ equal
    → descend (suc f) d p parent link m ≡ some (found p, m)
unfolding descend
descend_here f d m p parent link c ne at e =
    rw (not_null p ne, ◌>>=◌, load-some m p c ne at, e) refl

Finds-left :
    (l r : Tree) (p : Ptr) (c : Cell) (d : List ℕ) (place : Place)
    → IsSearchTree (node p c.color c.domain c.ipv4 l r)
    → IsDomain d
    → strcmp (some d) (some c.domain) ≡ greater
    → Finds l d place
    → Finds (node p c.color c.domain c.ipv4 l r) d place
Finds-left l r p c d place ordered dom high (hit ip h) = hit ip (inr (inl h))
Finds-left l r p c d place ordered dom high (miss none_held) =
    miss (λ ip h. none_held ip (held_left l r p c d ip ordered dom high h))

Finds-right :
    (l r : Tree) (p : Ptr) (c : Cell) (d : List ℕ) (place : Place)
    → IsSearchTree (node p c.color c.domain c.ipv4 l r)
    → IsDomain d
    → strcmp (some d) (some c.domain) ≡ less
    → Finds r d place
    → Finds (node p c.color c.domain c.ipv4 l r) d place
Finds-right l r p c d place ordered dom low (hit ip h) = hit ip (inr (inr h))
Finds-right l r p c d place ordered dom low (miss none_held) =
    miss (λ ip h. none_held ip (held_right l r p c d ip ordered dom low h))

descend-Finds :
    (fuel : ℕ) (d : List ℕ) (m : Heap) (link : Link) {parent p : Ptr} {t : Tree}
    → Rep m.cells parent p t
    → IsSearchTree t
    → IsDomain d
    → height t < fuel
    → (place : Place) × (descend fuel d p parent link m ≡ some (place, m)) × Finds t d place
unfolding descend
descend-Finds zero d m link rep ordered dom enough = absurd (omega arith)
descend-Finds (suc f) d m link {parent} leaf_rep ordered dom enough =
    (vacant parent link, refl, miss (λ ip h. h))
descend-Finds (suc f) d m link {parent} {p} (node_rep {l} {r} c ne at up lrep rrep) ordered dom
      enough =
    elim (Sign-cases (strcmp (some d) (some c.domain))) [
      | inl low ↦
          let (place, run, fs) =
            descend-Finds f d m (right_link p) rrep ordered.4 dom (ground arith) in
          (
            place,
            descend_right f d m p parent link c ne at low ∙ run,
            Finds-right l r p c d place ordered dom low fs,
          )
      | inr (inl same) ↦ (
        found p,
        descend_here f d m p parent link c ne at same,
        hit c.ipv4 (inl (sym ((strcmp-equal_iff d c.domain dom ordered.0).0 same), refl)),
      )
      | inr (inr high) ↦
          let (place, run, fs) =
            descend-Finds f d m (left_link p) lrep ordered.3 dom (ground arith) in
          (
            place,
            descend_left f d m p parent link c ne at high ∙ run,
            Finds-left l r p c d place ordered dom high fs,
          )
    ]

held-found :
    (t : Tree) (d : List ℕ) (ip : ℕ) (place : Place)
    → Holds t d ip
    → Finds t d place
    → (q : Ptr) × (place ≡ found q)
held-found t d ip (found q) held (hit jp h) = (q, refl)
held-found t d ip (vacant parent link) held (miss none_held) = absurd (none_held ip held)

-- Inserting a node whose domain a bucket holds already, the bucket being a search tree lower than
-- the fuel, returns -1 and changes nothing: the address held before stays.
pub inside_insert-duplicate :
    (fuel h : ℕ) (new : Ptr) (n : Cell) (ip : ℕ) (m : Heap) (t : Tree)
    → new ≢ null
    → m.cells new ≡ some n
    → Rep m.cells null (m.roots h) t
    → IsSearchTree t
    → IsDomain n.domain
    → height t < fuel
    → Holds t (n.domain) ip
    → inside_insert fuel h new m ≡ some (false, m)
unfolding inside_insert get_root
inside_insert-duplicate fuel h new n ip m t ne at rep ordered dom enough held =
    let (place, run, fs) = descend-Finds fuel (n.domain) m root_link rep ordered dom enough in
    let (q, e) = held-found t (n.domain) ip place held fs in
    rw (◌>>=◌, load-some m new n ne at, run, e) refl
