-- ===== src/Hashmap/Balanced.antt =====
-- Red-black trees: no red node below a red one, and as many black nodes on every way down.
use simp_dserver.Prelude.{
  ℕ, suc, ◌+◌, ◌≡◌, refl, ap, ◌∙◌, arith, List, [], ◌∷◌, ◌++◌, append_assoc, length, length-append,
}
use simp_dserver.Hashmap.Memory.{Ptr, Color, red, black}
use simp_dserver.Hashmap.Tree.{Tree, leaf, node}
use simp_dserver.Hashmap.Zipper.{left_of, right_of, Ctx, plug}

-- A tree with the colour of its top and its number of black nodes on each way down.
pub data RedBlack : Color → ℕ → Tree → Type 0 where
  leaf_ok : RedBlack black 0 leaf
  red_ok :
      {n : ℕ} {p : Ptr} {d : List ℕ} {ip : ℕ} {l r : Tree}
      → RedBlack black n l
      → RedBlack black n r
      → RedBlack red n (node p red d ip l r)
  black_ok :
      {j k : Color} {n : ℕ} {p : Ptr} {d : List ℕ} {ip : ℕ} {l r : Tree}
      → RedBlack j n l
      → RedBlack k n r
      → RedBlack black (suc n) (node p black d ip l r)

-- A hole that takes a tree with this colour and number.
pub data Fits : Color → ℕ → Ctx → Type 0 where
  at_top : {n : ℕ} → Fits black n []
  red_left :
      {n : ℕ} {p : Ptr} {d : List ℕ} {ip : ℕ} {r : Tree} {ctx : Ctx}
      → RedBlack black n r
      → Fits red n ctx
      → Fits black n (left_of p red d ip r ∷ ctx)
  red_right :
      {n : ℕ} {p : Ptr} {d : List ℕ} {ip : ℕ} {l : Tree} {ctx : Ctx}
      → RedBlack black n l
      → Fits red n ctx
      → Fits black n (right_of p red d ip l ∷ ctx)
  black_left :
      {j k : Color} {n : ℕ} {p : Ptr} {d : List ℕ} {ip : ℕ} {r : Tree} {ctx : Ctx}
      → RedBlack j n r
      → Fits black (suc n) ctx
      → Fits k n (left_of p black d ip r ∷ ctx)
  black_right :
      {j k : Color} {n : ℕ} {p : Ptr} {d : List ℕ} {ip : ℕ} {l : Tree} {ctx : Ctx}
      → RedBlack j n l
      → Fits black (suc n) ctx
      → Fits k n (right_of p black d ip l ∷ ctx)

pub plug-RedBlack :
    {k : Color} {n : ℕ} {ctx : Ctx} (t : Tree)
    → Fits k n ctx
    → RedBlack k n t
    → (n' : ℕ) × RedBlack black n' (plug ctx t)
plug-RedBlack t (at_top {n}) b = (n, b)
plug-RedBlack t (red_left {p} {d} {ip} {r} s f) b =
    plug-RedBlack (node p red d ip t r) f (red_ok b s)
plug-RedBlack t (red_right {p} {d} {ip} {l} s f) b =
    plug-RedBlack (node p red d ip l t) f (red_ok s b)
plug-RedBlack t (black_left {p} {d} {ip} {r} s f) b =
    plug-RedBlack (node p black d ip t r) f (black_ok b s)
plug-RedBlack t (black_right {p} {d} {ip} {l} s f) b =
    plug-RedBlack (node p black d ip l t) f (black_ok s b)

-- The domains of a tree with their addresses, from left to right.
abbrev pub Entry : Type 0
Entry = List ℕ × ℕ

abbrev pub inorder : Tree → List Entry
inorder leaf = []
inorder (node p k d ip l r) = inorder l ++ ((d, ip) ∷ inorder r)

pub inorder-plug :
    (ctx : Ctx) (t t' : Tree)
    → inorder t ≡ inorder t'
    → inorder (plug ctx t) ≡ inorder (plug ctx t')
inorder-plug [] t t' e = e
inorder-plug (left_of p k d ip r ∷ ctx) t t' e =
    inorder-plug ctx (node p k d ip t r) (node p k d ip t' r)
      (ap (λ xs. xs ++ ((d, ip) ∷ inorder r)) e)
inorder-plug (right_of p k d ip l ∷ ctx) t t' e =
    inorder-plug ctx (node p k d ip l t) (node p k d ip l t')
      (ap (λ xs. inorder l ++ ((d, ip) ∷ xs)) e)

-- A rotation keeps the order.
pub inorder_turn :
    (p q : Ptr) (j k j' k' : Color) (d e : List ℕ) (ip iq : ℕ) (a b c : Tree)
    → inorder (node q k e iq (node p j d ip a b) c)
      ≡ inorder (node p j' d ip a (node q k' e iq b c))
inorder_turn p q j k j' k' d e ip iq a b c =
    append_assoc (inorder a) ((d, ip) ∷ inorder b) ((e, iq) ∷ inorder c)

abbrev pub size : Tree → ℕ
size leaf = 0
size (node p k d ip l r) = suc (size l + size r)

-- The part of a red-black tree at a hole.
At : Ctx → Tree → Type 0
At ctx t = (k : Color) × (n : ℕ) × RedBlack k n t × Fits k n ctx

opened_left :
    {k j : Color} {n : ℕ} {p : Ptr} {d : List ℕ} {ip : ℕ} {t r : Tree} {ctx : Ctx}
    → RedBlack k n (node p j d ip t r)
    → Fits k n ctx
    → At (left_of p j d ip r ∷ ctx) t
unfolding At
opened_left (red_ok b s) fit = (_, _, b, red_left s fit)
opened_left (black_ok b s) fit = (_, _, b, black_left s fit)

opened_right :
    {k j : Color} {n : ℕ} {p : Ptr} {d : List ℕ} {ip : ℕ} {t l : Tree} {ctx : Ctx}
    → RedBlack k n (node p j d ip l t)
    → Fits k n ctx
    → At (right_of p j d ip l ∷ ctx) t
unfolding At
opened_right (red_ok s b) fit = (_, _, b, red_right s fit)
opened_right (black_ok s b) fit = (_, _, b, black_right s fit)

unplug : (ctx : Ctx) (t : Tree) {n : ℕ} → RedBlack black n (plug ctx t) → At ctx t
unfolding At
unplug [] t {n} b = (black, n, b, at_top)
unplug (left_of p j d ip r ∷ ctx) t b =
    let (k, n, b', fit) = unplug ctx (node p j d ip t r) b in opened_left b' fit
unplug (right_of p j d ip l ∷ ctx) t b =
    let (k, n, b', fit) = unplug ctx (node p j d ip l t) b in opened_right b' fit

leaf_fits :
    {k : Color} {n : ℕ} {ctx : Ctx} (t : Tree)
    → t ≡ leaf
    → RedBlack k n t
    → Fits k n ctx
    → Fits black 0 ctx
leaf_fits t e leaf_ok fit = fit
leaf_fits t e (red_ok a b) fit = ground arith
leaf_fits t e (black_ok a b) fit = ground arith

-- An empty place of a red-black tree takes a subtree without black nodes.
pub hole-Fits : (ctx : Ctx) {n : ℕ} → RedBlack black n (plug ctx leaf) → Fits black 0 ctx
unfolding At
hole-Fits ctx b = let (k, n, b', fit) = unplug ctx leaf b in leaf_fits leaf refl b' fit

pub length-inorder : (t : Tree) → length (inorder t) ≡ size t
length-inorder leaf = refl
length-inorder (node p k d ip l r) =
    length-append (inorder l) ((d, ip) ∷ inorder r)
    ∙ omega (arith, length-inorder l, length-inorder r)
