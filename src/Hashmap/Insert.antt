-- ===== src/Hashmap/Insert.antt =====
-- net_hashmap_core.c, `inside_insert`: a domain that the bucket does not hold yet.
use mathlib.Core.Path.{subst}
use simp_dserver.Prelude.{
  ℕ, suc, ◌<◌, ◌≡◌, ◌≢◌, refl, sym, ap, ap₂, ◌∙◌, arith, some, List, [], ◌∷◌, length, length-append,
  true, ◌⊎◌, inl, inr, ◌↔◌,
}
use simp_dserver.Hashmap.{root_link, descend, inside_insert}
use simp_dserver.Hashmap.Attach.{with_node, link_node-Zip}
use simp_dserver.Hashmap.Balanced.{
  RedBlack, leaf_ok, red_ok, hole-Fits, inorder, length-inorder, size,
}
use simp_dserver.Hashmap.Descent.{Guarded, descend-Lands, flanked}
use simp_dserver.Hashmap.Memory.{Ptr, null, red, black, Cell, Heap, ◌>>=◌, ◌>>◌, get_root}
use simp_dserver.Hashmap.Rbtree.Balance.{insert_color-Settled}
use simp_dserver.Hashmap.Search.{load-some}
use simp_dserver.Hashmap.Sorted.{
  Descending, Descending-insert, IsSearchTree-Descending, Descending-IsSearchTree, Holds-Listed,
  Listed-Holds, Listed-insert,
}
use simp_dserver.Hashmap.Text.Order.{IsDomain}
use simp_dserver.Hashmap.Tree.{Tree, leaf, node, height, Rep, Holds, IsSearchTree}
use simp_dserver.Hashmap.Zipper.{Ctx, plug, Zip, Outside, Outside-trans}
use simp_dserver.Hashmap.Zipper.Frames.{root_top, top_above}

-- The bucket `h` is a red-black search tree, on the nodes that `nodes` counts.
pub record Bucket (nodes : Ptr → ℕ) (h : ℕ) (m : Heap) (t : Tree) : Type 0 where
  pub zip : Zip nodes h m [] t
  pub depth : ℕ
  pub balanced : RedBlack black depth t
  pub searches : IsSearchTree t

pub Bucket-Rep :
    {nodes : Ptr → ℕ} {h : ℕ} {m : Heap} {t : Tree}
    → Bucket nodes h m t
    → Rep m.cells null (m.roots h) t
Bucket-Rep {h} {m} {t} b =
    subst (λ x. Rep m.cells x (m.roots h) t) (top_above b.zip.path)
      (subst (λ x. Rep m.cells b.zip.above x t) (sym (root_top b.zip.path)) b.zip.tree)

-- A tree holds what the tree `t` held, and the address `ip` with the domain `d`.
abbrev pub Gains : Tree → List ℕ → ℕ → Tree → Type 0
Gains t d ip t' = (e : List ℕ) (jp : ℕ) → Holds t' e jp ↔ (((d ≡ e) × (ip ≡ jp)) ⊎ Holds t e jp)

-- What the insertion of the node `new` leaves: it returns 0, and the bucket has one node more.
pub record Inserted (nodes : Ptr → ℕ) (h fuel new : ℕ) (c : Cell) (m : Heap) (t : Tree)
    : Type 0 where
  pub after : Heap
  pub result : Tree
  pub ends : inside_insert fuel h new m ≡ some (true, after)
  pub bucket : Bucket (with_node new nodes) h after result
  pub gains : Gains t c.domain c.ipv4 result
  pub larger : size result ≡ suc (size t)
  pub outside : Outside (with_node new nodes) h m after

-- The same domains in the same order, with one more in between.
grown :
    (t t' : Tree) (d : List ℕ) (ip : ℕ) (ctx : Ctx) (new : Ptr)
    → IsSearchTree (plug ctx leaf)
    → IsDomain d
    → Guarded d ctx
    → inorder t' ≡ inorder (plug ctx (node new red d ip leaf leaf))
    → plug ctx leaf ≡ t
    → IsSearchTree t' × Gains t d ip t' × (size t' ≡ suc (size t))
grown t t' d ip ctx new s dom g e same =
    let (xs, ys, was, now, o, u) =
      flanked ctx d (d, ip) leaf (node new red d ip leaf leaf) [] [] refl refl tt tt g in
    let was' = ap inorder (sym same) ∙ was in
    let now' = e ∙ now in
    (
      Descending-IsSearchTree t' (
          rw (now') (
            Descending-insert xs ys d ip
              (subst Descending was (IsSearchTree-Descending (plug ctx leaf) s)) dom o u)),
      λ f jp. (
        λ held. elim ((Listed-insert xs ys d ip f jp).0 (rw now' at (Holds-Listed t' f jp held))) [
          | inl it ↦ inl it
          | inr old ↦ inr (Listed-Holds t f jp (rw (was') old))
        ],
        λ held. Listed-Holds t' f jp (
            rw (now') (
              (Listed-insert xs ys d ip f jp).1 (elim held [
                | inl it ↦ inl it
                | inr old ↦ inr (rw was' at (Holds-Listed t f jp old))
              ]))),
      ),
      sym (length-inorder t')
          ∙ ap length now'
          ∙ length-append xs ((d, ip) ∷ ys)
          ∙ omega (arith, length-append xs ys, ap length was', length-inorder t),
    )

-- Inserting an allocated node that is not NULL and not in the bucket, whose domain fits and is not
-- held by the bucket, a red-black search tree lower than the fuel, returns 0 without a fault. The
-- bucket is again a red-black search tree, on one node more; it holds what it held and the new domain
-- with its address; the cells of other nodes and the roots of other buckets stay.
pub inside_insert-Inserted :
    {nodes : Ptr → ℕ} (fuel h : ℕ) (new : Ptr) (c : Cell) (m : Heap) (t : Tree)
    → Bucket nodes h m t
    → new ≢ null
    → m.cells new ≡ some c
    → nodes new ≡ 0
    → IsDomain c.domain
    → ((ip : ℕ) → ¬ Holds t c.domain ip)
    → height t < fuel
    → Inserted nodes h fuel new c m t
unfolding inside_insert get_root
inside_insert-Inserted fuel h new c m t b ne there fresh dom free enough =
    let place = descend-Lands c.domain dom fuel [] t b.zip b.searches free tt enough in
    let (m1, linked, z, out) = link_node-Zip new c place.zip ne there fresh in
    let whole =
      hole-Fits place.ctx (subst (λ x. RedBlack black b.depth x) (sym place.same) b.balanced) in
    let (s, dark) =
      insert_color-Settled fuel (omega (arith, place.short, enough)) z (red_ok leaf_ok leaf_ok)
        whole in
    let (ordered, gains, larger) =
      grown t s.result c.domain c.ipv4 place.ctx new
        (subst IsSearchTree (sym place.same) b.searches) dom place.guarded s.ordered place.same in
    let found =
      ap₂ (λ x y. descend fuel c.domain x y root_link m) (root_top b.zip.path)
        (sym (top_above b.zip.path))
      ∙ place.ends in
    record {
      after = s.after;
      result = s.result;
      ends = rw (◌>>=◌, ◌>>◌, load-some m new c ne there, found, linked, s.ends) refl;
      bucket = record {
        zip = s.zip;
        depth = s.depth;
        balanced = subst (λ x. RedBlack x s.depth s.result) dark s.balanced;
        searches = ordered;
      };
      gains = gains;
      larger = larger;
      outside = Outside-trans out s.outside;
    }
