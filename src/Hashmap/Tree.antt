-- ===== src/Hashmap/Tree.antt =====
-- What the nodes of one bucket stand for: a search tree of domains. The code keeps the greater
-- domains on the left.
use mathlib.Core.Path.{subst}
use simp_dserver.Prelude.{ℕ, suc, ◌≡◌, ◌≢◌, ◌⊎◌, inl, inr, some, Option, List, leb, if◌then◌else◌}
use simp_dserver.Hashmap.Memory.{Ptr, null, Color, Cell}
use simp_dserver.Hashmap.Text.{greater, strcmp}
use simp_dserver.Hashmap.Text.Order.{IsDomain}

pub data Tree : Type 0 where
  leaf : Tree
  node : (at : Ptr) → Color → (domain : List ℕ) → (ipv4 : ℕ) → Tree → Tree → Tree

abbrev pub height : Tree → ℕ
height leaf = 0
height (node p k d ip l r) = suc (if leb (height l) (height r) then height r else height l)

-- The cells from `p` on are those of the tree, each with its parent, colour, domain and address.
pub data Rep (cells : Ptr → Option Cell) : (parent p : Ptr) → Tree → Type 0 where
  leaf_rep : {parent : Ptr} → Rep cells parent null leaf
  node_rep :
      {parent p : Ptr} {l r : Tree} (c : Cell)
      → p ≢ null
      → cells p ≡ some c
      → c.parent ≡ parent
      → Rep cells p c.left l
      → Rep cells p c.right r
      → Rep cells parent p (node p c.color c.domain c.ipv4 l r)

-- The tree holds the domain with this address.
abbrev pub Holds : Tree → List ℕ → ℕ → Type 0
Holds leaf d ip = ⊥
Holds (node p k e jp l r) d ip = ((e ≡ d) × (jp ≡ ip)) ⊎ Holds l d ip ⊎ Holds r d ip

-- Every domain of the tree is greater than `d`, and is less than `d`.
abbrev pub Above : List ℕ → Tree → Type 0
Above d leaf = Unit
Above d (node p k e ip l r) = (strcmp (some e) (some d) ≡ greater) × Above d l × Above d r

abbrev pub Below : List ℕ → Tree → Type 0
Below d leaf = Unit
Below d (node p k e ip l r) = (strcmp (some d) (some e) ≡ greater) × Below d l × Below d r

abbrev pub IsSearchTree : Tree → Type 0
IsSearchTree leaf = Unit
IsSearchTree (node p k d ip l r) =
    IsDomain d × Above d l × Below d r × IsSearchTree l × IsSearchTree r

pub greater_of_held :
    (d e : List ℕ) (ip : ℕ) (t : Tree)
    → Above d t
    → Holds t e ip
    → strcmp (some e) (some d) ≡ greater
greater_of_held d e ip leaf a h = elim h [ ]
greater_of_held d e ip (node p k f jp l r) a h = elim h [
  | inl (same, _) ↦ subst (λ x. strcmp (some x) (some d) ≡ greater) same a.0
  | inr (inl left) ↦ greater_of_held d e ip l a.1 left
  | inr (inr right) ↦ greater_of_held d e ip r a.2 right
]

pub less_of_held :
    (d e : List ℕ) (ip : ℕ) (t : Tree)
    → Below d t
    → Holds t e ip
    → strcmp (some d) (some e) ≡ greater
less_of_held d e ip leaf a h = elim h [ ]
less_of_held d e ip (node p k f jp l r) a h = elim h [
  | inl (same, _) ↦ subst (λ x. strcmp (some d) (some x) ≡ greater) same a.0
  | inr (inl left) ↦ less_of_held d e ip l a.1 left
  | inr (inr right) ↦ less_of_held d e ip r a.2 right
]
