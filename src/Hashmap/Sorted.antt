-- ===== src/Hashmap/Sorted.antt =====
-- The domains of a bucket from left to right: a search tree is one whose domains descend.
use simp_dserver.Prelude.{ℕ, ◌≡◌, ◌↔◌, ◌⊎◌, inl, inr, some, List, [], ◌∷◌, ◌++◌}
use simp_dserver.Hashmap.Balanced.{Entry, inorder}
use simp_dserver.Hashmap.Text.{greater, strcmp}
use simp_dserver.Hashmap.Text.Order.{IsDomain, strcmp_trans}
use simp_dserver.Hashmap.Tree.{Tree, leaf, node, Holds, Above, Below, IsSearchTree}

-- Every domain of the list is greater than `d`, and is less than `d`.
abbrev pub Over : List ℕ → List Entry → Type 0
Over d [] = Unit
Over d ((e, ip) ∷ xs) = (strcmp (some e) (some d) ≡ greater) × Over d xs

abbrev pub Under : List ℕ → List Entry → Type 0
Under d [] = Unit
Under d ((e, ip) ∷ xs) = (strcmp (some d) (some e) ≡ greater) × Under d xs

abbrev pub Descending : List Entry → Type 0
Descending [] = Unit
Descending ((d, ip) ∷ xs) = IsDomain d × Under d xs × Descending xs

abbrev pub Listed : List Entry → List ℕ → ℕ → Type 0
Listed [] d ip = ⊥
Listed ((e, jp) ∷ xs) d ip = ((e ≡ d) × (jp ≡ ip)) ⊎ Listed xs d ip

pub Over-append : (d : List ℕ) (xs ys : List Entry) → Over d xs → Over d ys → Over d (xs ++ ys)
Over-append d [] ys a b = b
Over-append d (x ∷ xs) ys a b = (a.0, Over-append d xs ys a.1 b)

pub Under-append : (d : List ℕ) (xs ys : List Entry) → Under d xs → Under d ys → Under d (xs ++ ys)
Under-append d [] ys a b = b
Under-append d (x ∷ xs) ys a b = (a.0, Under-append d xs ys a.1 b)

Under-split : (d : List ℕ) (xs ys : List Entry) → Under d (xs ++ ys) → Under d xs × Under d ys
Under-split d [] ys u = (tt, u)
Under-split d (x ∷ xs) ys u = let (a, b) = Under-split d xs ys u.1 in ((u.0, a), b)

-- One more domain between the greater ones and the less ones.
pub Descending-insert :
    (xs ys : List Entry) (d : List ℕ) (ip : ℕ)
    → Descending (xs ++ ys)
    → IsDomain d
    → Over d xs
    → Under d ys
    → Descending (xs ++ ((d, ip) ∷ ys))
Descending-insert [] ys d ip s dom o u = (dom, u, s)
Descending-insert ((e, jp) ∷ xs) ys d ip s dom o u =
    let (a, b) = Under-split e xs ys s.1 in
    (s.0, Under-append e xs ((d, ip) ∷ ys) a (o.0, b), Descending-insert xs ys d ip s.2 dom o.1 u)

Descending-split :
    (xs : List Entry) (d : List ℕ) (ip : ℕ) (ys : List Entry)
    → Descending (xs ++ ((d, ip) ∷ ys))
    → Descending xs × Over d xs × IsDomain d × Under d ys × Descending ys
Descending-split [] d ip ys s = (tt, tt, s.0, s.1, s.2)
Descending-split ((e, jp) ∷ xs) d ip ys s =
    let (a, b, c, u', v') = Descending-split xs d ip ys s.2 in
    let (u, v) = Under-split e xs ((d, ip) ∷ ys) s.1 in ((s.0, u, a), (v.0, b), c, u', v')

Over-split : (d : List ℕ) (xs ys : List Entry) → Over d (xs ++ ys) → Over d xs × Over d ys
Over-split d [] ys u = (tt, u)
Over-split d (x ∷ xs) ys u = let (a, b) = Over-split d xs ys u.1 in ((u.0, a), b)

Over-Above : (d : List ℕ) (t : Tree) → Over d (inorder t) → Above d t
Over-Above d leaf o = tt
Over-Above d (node p k e ip l r) o =
    let (a, b) = Over-split d (inorder l) ((e, ip) ∷ inorder r) o in
    (b.0, Over-Above d l a, Over-Above d r b.1)

Under-Below : (d : List ℕ) (t : Tree) → Under d (inorder t) → Below d t
Under-Below d leaf o = tt
Under-Below d (node p k e ip l r) o =
    let (a, b) = Under-split d (inorder l) ((e, ip) ∷ inorder r) o in
    (b.0, Under-Below d l a, Under-Below d r b.1)

pub Above-Over : (d : List ℕ) (t : Tree) → Above d t → Over d (inorder t)
Above-Over d leaf a = tt
Above-Over d (node p k e ip l r) a =
    Over-append d (inorder l) ((e, ip) ∷ inorder r) (Above-Over d l a.1) (a.0, Above-Over d r a.2)

pub Below-Under : (d : List ℕ) (t : Tree) → Below d t → Under d (inorder t)
Below-Under d leaf a = tt
Below-Under d (node p k e ip l r) a =
    Under-append d (inorder l) ((e, ip) ∷ inorder r) (Below-Under d l a.1)
      (a.0, Below-Under d r a.2)

pub Under-trans :
    (e d : List ℕ) (ys : List Entry)
    → IsDomain e
    → IsDomain d
    → strcmp (some e) (some d) ≡ greater
    → Under d ys
    → Descending ys
    → Under e ys
Under-trans e d [] he hd g u s = tt
Under-trans e d ((f, ip) ∷ ys) he hd g u s =
    (strcmp_trans e d f he hd s.0 g u.0, Under-trans e d ys he hd g u.1 s.2)

Descending-join :
    (xs : List Entry) (d : List ℕ) (ip : ℕ) (ys : List Entry)
    → Descending xs
    → Over d xs
    → IsDomain d
    → Under d ys
    → Descending ys
    → Descending (xs ++ ((d, ip) ∷ ys))
Descending-join [] d ip ys sx o dom u sy = (dom, u, sy)
Descending-join ((e, jp) ∷ xs) d ip ys sx o dom u sy = (
  sx.0,
  Under-append e xs ((d, ip) ∷ ys) sx.1 (o.0, Under-trans e d ys sx.0 dom o.0 u sy),
  Descending-join xs d ip ys sx.2 o.1 dom u sy,
)

pub IsSearchTree-Descending : (t : Tree) → IsSearchTree t → Descending (inorder t)
IsSearchTree-Descending leaf s = tt
IsSearchTree-Descending (node p k d ip l r) s =
    Descending-join (inorder l) d ip (inorder r) (IsSearchTree-Descending l s.3)
      (Above-Over d l s.1) s.0 (Below-Under d r s.2) (IsSearchTree-Descending r s.4)

pub Descending-IsSearchTree : (t : Tree) → Descending (inorder t) → IsSearchTree t
Descending-IsSearchTree leaf s = tt
Descending-IsSearchTree (node p k d ip l r) s =
    let (a, o, dom, u, b) = Descending-split (inorder l) d ip (inorder r) s in
    (
      dom,
      Over-Above d l o,
      Under-Below d r u,
      Descending-IsSearchTree l a,
      Descending-IsSearchTree r b,
    )

-- What a tree holds is what its list has.
Listed-left : (xs ys : List Entry) (d : List ℕ) (ip : ℕ) → Listed xs d ip → Listed (xs ++ ys) d ip
Listed-left [] ys d ip h = elim h [ ]
Listed-left (x ∷ xs) ys d ip (inl e) = inl e
Listed-left (x ∷ xs) ys d ip (inr h) = inr (Listed-left xs ys d ip h)

Listed-right : (xs ys : List Entry) (d : List ℕ) (ip : ℕ) → Listed ys d ip → Listed (xs ++ ys) d ip
Listed-right [] ys d ip h = h
Listed-right (x ∷ xs) ys d ip h = inr (Listed-right xs ys d ip h)

Listed-split :
    (xs ys : List Entry) (d : List ℕ) (ip : ℕ)
    → Listed (xs ++ ys) d ip
    → Listed xs d ip ⊎ Listed ys d ip
Listed-split [] ys d ip h = inr h
Listed-split (x ∷ xs) ys d ip (inl e) = inl (inl e)
Listed-split (x ∷ xs) ys d ip (inr h) = elim (Listed-split xs ys d ip h) [
  | inl a ↦ inl (inr a)
  | inr b ↦ inr b
]

pub Holds-Listed : (t : Tree) (d : List ℕ) (ip : ℕ) → Holds t d ip → Listed (inorder t) d ip
Holds-Listed leaf d ip h = elim h [ ]
Holds-Listed (node p k e jp l r) d ip (inl same) =
    Listed-right (inorder l) ((e, jp) ∷ inorder r) d ip (inl same)
Holds-Listed (node p k e jp l r) d ip (inr (inl h)) =
    Listed-left (inorder l) ((e, jp) ∷ inorder r) d ip (Holds-Listed l d ip h)
Holds-Listed (node p k e jp l r) d ip (inr (inr h)) =
    Listed-right (inorder l) ((e, jp) ∷ inorder r) d ip (inr (Holds-Listed r d ip h))

pub Listed-Holds : (t : Tree) (d : List ℕ) (ip : ℕ) → Listed (inorder t) d ip → Holds t d ip
Listed-Holds leaf d ip h = elim h [ ]
Listed-Holds (node p k e jp l r) d ip h =
    elim (Listed-split (inorder l) ((e, jp) ∷ inorder r) d ip h) [
      | inl a ↦ inr (inl (Listed-Holds l d ip a))
      | inr (inl same) ↦ inl same
      | inr (inr b) ↦ inr (inr (Listed-Holds r d ip b))
    ]

pub Listed-insert :
    (xs ys : List Entry) (d : List ℕ) (ip : ℕ) (e : List ℕ) (jp : ℕ)
    → Listed (xs ++ ((d, ip) ∷ ys)) e jp ↔ (((d ≡ e) × (ip ≡ jp)) ⊎ Listed (xs ++ ys) e jp)
Listed-insert xs ys d ip e jp = (
  λ h. elim (Listed-split xs ((d, ip) ∷ ys) e jp h) [
    | inl a ↦ inr (Listed-left xs ys e jp a)
    | inr (inl same) ↦ inl same
    | inr (inr b) ↦ inr (Listed-right xs ys e jp b)
  ],
  λ h. elim h [
    | inl same ↦ Listed-right xs ((d, ip) ∷ ys) e jp (inl same)
    | inr old ↦ elim (Listed-split xs ys e jp old) [
      | inl a ↦ Listed-left xs ((d, ip) ∷ ys) e jp a
      | inr b ↦ Listed-right xs ((d, ip) ∷ ys) e jp (inr b)
    ]
  ],
)

pub Over-trans :
    (d e : List ℕ) (xs : List Entry)
    → IsDomain d
    → IsDomain e
    → strcmp (some e) (some d) ≡ greater
    → Over e xs
    → Descending xs
    → Over d xs
Over-trans d e [] hd he g o s = tt
Over-trans d e ((f, ip) ∷ xs) hd he g o s =
    (strcmp_trans f e d s.0 he hd o.0 g, Over-trans d e xs hd he g o.1 s.2)
