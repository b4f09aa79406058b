-- ===== src/Hashmap/Descent.antt =====
-- net_hashmap_core.c, `inside_insert`: a domain that the bucket does not hold yet.
use simp_dserver.Prelude.{
  ℕ, zero, suc, ◌+◌, ◌≤◌, ◌<◌, ◌≡◌, ◌≢◌, refl, sym, ap, ap₂, ◌∙◌, arith, some, Option, List, [],
  ◌∷◌, ◌++◌, append_assoc, length, inl, inr,
}
use simp_dserver.Hashmap.{Place, vacant, left_link, right_link, descend}
use simp_dserver.Hashmap.Attach.{link_of}
use simp_dserver.Hashmap.Balanced.{Entry, inorder}
use simp_dserver.Hashmap.Duplicate.{descend_left, descend_right}
use simp_dserver.Hashmap.Memory.{Ptr, null, Color, Cell, Heap}
use simp_dserver.Hashmap.Search.{Sign-cases}
use simp_dserver.Hashmap.Sorted.{
  Over, Under, Over-append, Under-append, Above-Over, Below-Under, Under-trans, Over-trans,
  IsSearchTree-Descending,
}
use simp_dserver.Hashmap.Text.{greater, strcmp}
use simp_dserver.Hashmap.Text.Order.{IsDomain, strcmp_flip, strcmp-equal_iff}
use simp_dserver.Hashmap.Tree.{
  Tree, leaf, node, height, Rep, leaf_rep, node_rep, Holds, IsSearchTree,
}
use simp_dserver.Hashmap.Zipper.{
  left_of, right_of, Ctx, plug, PathRep, left_rep, right_rep, Zip, down_left, down_right,
}

-- The domain `d` belongs in the hole: each node above, with its other subtree, is on the right side.
abbrev pub Guarded : List ℕ → Ctx → Type 0
Guarded d [] = Unit
Guarded d (left_of p k e ip r ∷ ctx) =
    (strcmp (some d) (some e) ≡ greater) × Under d (inorder r) × Guarded d ctx
Guarded d (right_of p k e ip l ∷ ctx) =
    (strcmp (some e) (some d) ≡ greater) × Over d (inorder l) × Guarded d ctx

-- What stands on both sides of a hole that `d` belongs in.
pub flanked :
    (ctx : Ctx) (d : List ℕ) (x : Entry) (t t' : Tree) (xs ys : List Entry)
    → inorder t ≡ xs ++ ys
    → inorder t' ≡ xs ++ (x ∷ ys)
    → Over d xs
    → Under d ys
    → Guarded d ctx
    → (before after : List Entry) × (inorder (plug ctx t) ≡ before ++ after)
      × (inorder (plug ctx t') ≡ before ++ (x ∷ after))
      × Over d before
      × Under d after
flanked [] d x t t' xs ys e e' o u g = (xs, ys, e, e', o, u)
flanked (left_of p k f ip r ∷ ctx) d x t t' xs ys e e' o u g =
    let rest = (f, ip) ∷ inorder r in
    flanked ctx d x (node p k f ip t r) (node p k f ip t' r) xs (ys ++ rest)
      (rw (e) (append_assoc xs ys rest)) (rw (e') (append_assoc xs (x ∷ ys) rest)) o
      (Under-append d ys rest u (g.0, g.1)) g.2
flanked (right_of p k f ip l ∷ ctx) d x t t' xs ys e e' o u g =
    flanked ctx d x (node p k f ip l t) (node p k f ip l t') (inorder l ++ ((f, ip) ∷ xs)) ys
      (rw (e) (sym (append_assoc (inorder l) ((f, ip) ∷ xs) ys)))
      (rw (e') (sym (append_assoc (inorder l) ((f, ip) ∷ xs) (x ∷ ys))))
      (Over-append d (inorder l) ((f, ip) ∷ xs) g.1 (g.0, o)) u g.2

node_facts :
    {cells : Ptr → Option Cell} {above hole p : Ptr} {k : Color} {d : List ℕ} {ip : ℕ} {l r : Tree}
    → Rep cells above hole (node p k d ip l r)
    → (c : Cell) × (p ≢ null) × (cells p ≡ some c) × (hole ≡ p) × (c.domain ≡ d)
node_facts (node_rep c ne there up l r) = (c, ne, there, refl, refl)

leaf_hole : {cells : Ptr → Option Cell} {above hole : Ptr} → Rep cells above hole leaf → hole ≡ null
leaf_hole leaf_rep = refl

some-injective : (a b : Cell) → some a ≡ some b → a ≡ b
some-injective a b e = ground arith

hole_left :
    {cells : Ptr → Option Cell} {root hole above p : Ptr} {k : Color} {d : List ℕ} {ip : ℕ}
    {r : Tree} {ctx : Ctx} (c : Cell)
    → cells p ≡ some c
    → PathRep cells root hole above (left_of p k d ip r ∷ ctx)
    → (c.left ≡ hole) × (p ≡ above)
hole_left c e (left_rep c' ne there up down r path) =
    (ap (λ x. x.left) (some-injective c c' (sym e ∙ there)) ∙ down, refl)

hole_right :
    {cells : Ptr → Option Cell} {root hole above p : Ptr} {k : Color} {d : List ℕ} {ip : ℕ}
    {l : Tree} {ctx : Ctx} (c : Cell)
    → cells p ≡ some c
    → PathRep cells root hole above (right_of p k d ip l ∷ ctx)
    → (c.right ≡ hole) × (p ≡ above)
hole_right c e (right_rep c' ne there up down l path) =
    (ap (λ x. x.right) (some-injective c c' (sym e ∙ there)) ∙ down, refl)

-- Where a descent from the hole `ctx` of the tree `whole` ends: at an empty hole that `d` belongs in.
pub record Lands (nodes : Ptr → ℕ) (h : ℕ) (m : Heap) (d : List ℕ) (whole : Tree) (most : ℕ)
    (run : Option (Place × Heap)) : Type 0 where
  pub ctx : Ctx
  pub zip : Zip nodes h m ctx leaf
  pub ends : run ≡ some (vacant zip.above (link_of ctx), m)
  pub guarded : Guarded d ctx
  pub same : plug ctx leaf ≡ whole
  pub short : length ctx ≤ most

Lands-from :
    {nodes : Ptr → ℕ} {h : ℕ} {m : Heap} {d : List ℕ} {whole : Tree} {most more : ℕ}
    {run run' : Option (Place × Heap)}
    → run ≡ run'
    → most ≤ more
    → Lands nodes h m d whole most run'
    → Lands nodes h m d whole more run
Lands-from e le s = record {
  ctx = s.ctx;
  zip = s.zip;
  ends = e ∙ s.ends;
  guarded = s.guarded;
  same = s.same;
  short = omega (arith, le, s.short);
}

module _ {nodes : Ptr → ℕ} {h : ℕ} {m : Heap} (d : List ℕ) (dom : IsDomain d) where
  pub descend-Lands :
      (fuel : ℕ) (ctx : Ctx) (t : Tree)
      → (z : Zip nodes h m ctx t) → IsSearchTree t
      → ((ip : ℕ) → ¬ Holds t d ip)
      → Guarded d ctx
      → height t < fuel
      → Lands nodes h m d
          (plug ctx t)
          (length ctx + height t)
          (descend fuel d z.hole z.above (link_of ctx) m)
  unfolding descend
  descend-Lands zero ctx t z s free g enough = absurd (omega arith)
  descend-Lands (suc fuel) ctx leaf z s free g enough = record {
    ctx = ctx;
    zip = z;
    ends = rw (leaf_hole z.tree) refl;
    guarded = g;
    same = refl;
    short = omega arith;
  }
  descend-Lands (suc fuel) ctx (node p k e ip l r) z s free g enough =
      let (c, ne, there, at_p, named) = node_facts z.tree in
      elim (Sign-cases (strcmp (some d) (some e))) [
        | inl low ↦
            let w = down_right z in
            let (is_hole, is_above) = hole_right c there w.path in
            let high = (strcmp_flip e d s.0 dom).1 low in
            Lands-from
              (ap (λ x. descend (suc fuel) d x z.above (link_of ctx) m) at_p
                ∙ descend_right fuel d m p z.above (link_of ctx) c ne there
                    (ap (λ x. strcmp (some d) (some x)) named ∙ low)
                ∙ ap₂ (λ x y. descend fuel d x y (right_link p) m) is_hole is_above)
              (ground arith)
              (descend-Lands fuel (right_of p k e ip l ∷ ctx) r w s.4
                (λ jp held. free jp (inr (inr held)))
                (
                  high,
                  Over-trans d e (inorder l) dom s.0 high (Above-Over e l s.1)
                      (IsSearchTree-Descending l s.3),
                  g,
                )
                (ground arith))
        | inr (inl same) ↦
            absurd (free ip (inl (sym ((strcmp-equal_iff d e dom s.0).0 same), refl)))
        | inr (inr high) ↦
            let w = down_left z in
            let (is_hole, is_above) = hole_left c there w.path in
            Lands-from
              (ap (λ x. descend (suc fuel) d x z.above (link_of ctx) m) at_p
                ∙ descend_left fuel d m p z.above (link_of ctx) c ne there
                    (ap (λ x. strcmp (some d) (some x)) named ∙ high)
                ∙ ap₂ (λ x y. descend fuel d x y (left_link p) m) is_hole is_above)
              (ground arith)
              (descend-Lands fuel (left_of p k e ip r ∷ ctx) l w s.3
                (λ jp held. free jp (inr (inl held)))
                (
                  high,
                  Under-trans d e (inorder r) dom s.0 high (Below-Under e r s.2)
                      (IsSearchTree-Descending r s.4),
                  g,
                )
                (ground arith))
      ]
