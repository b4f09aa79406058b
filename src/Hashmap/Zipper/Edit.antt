-- ===== src/Hashmap/Zipper/Edit.antt =====
-- Writes of one field of a node, and what they do to a bucket with a hole.
use mathlib.Core.Path.{subst}
use simp_dserver.Prelude.{ℕ, ◌≤◌, ◌≡◌, ◌≢◌, refl, sym, arith, some, Option, List}
use simp_dserver.Hashmap.Memory.{
  Ptr, null, Color, Cell, Heap, ◌>>=◌, store, set_parent, set_color, set_left, set_right,
  unless_null, update,
}
use simp_dserver.Hashmap.Search.{load-some, not_null}
use simp_dserver.Hashmap.Tree.{Tree, node, Rep, leaf_rep, node_rep}
use simp_dserver.Hashmap.Zipper.{Ctx, occurs, PathRep, Rep-frame, PathRep-frame, Zip, Outside}

abbrev pub put : Ptr → Cell → Heap → Heap
put p c m = record m { cells = update m.cells p (some c) }

abbrev pub put_root : ℕ → Ptr → Heap → Heap
put_root h p m = record m { roots = update m.roots h p }

module _ (m : Heap) (p : Ptr) where
  pub put-here : (c : Cell) → (put p c m).cells p ≡ some c
  put-here c = ground arith

  pub put-other : (c : Cell) (q : Ptr) → q ≢ p → (put p c m).cells q ≡ m.cells q
  put-other c q ne = ground arith

module _ (m : Heap) (p : Ptr) (c : Cell) (ne : p ≢ null) (at : m.cells p ≡ some c) (q : Ptr) where
  pub set_parent-some : set_parent p q m ≡ some (tt, put p (record c { parent = q }) m)
  unfolding set_parent store
  set_parent-some = rw (◌>>=◌, load-some m p c ne at) refl

  pub set_left-some : set_left p q m ≡ some (tt, put p (record c { left = q }) m)
  unfolding set_left store
  set_left-some = rw (◌>>=◌, load-some m p c ne at) refl

  pub set_right-some : set_right p q m ≡ some (tt, put p (record c { right = q }) m)
  unfolding set_right store
  set_right-some = rw (◌>>=◌, load-some m p c ne at) refl

-- The top of a tree gets another parent.
pub adopt :
    (m : Heap) (new : Ptr) {old p : Ptr} {t : Tree}
    → Rep m.cells old p t
    → ((q : Ptr) → occurs q t ≤ 1)
    → (m' : Heap) × (unless_null p (set_parent p new) m ≡ some (tt, m'))
      × Rep m'.cells new p t
      × ((q : Ptr) → occurs q t ≡ 0 → m'.cells q ≡ m.cells q)
      × ((g : ℕ) → m'.roots g ≡ m.roots g)
adopt m new leaf_rep once = (m, refl, leaf_rep, λ q e. refl, λ g. refl)
adopt m new (node_rep {p} {l} {r} c ne at up left right) once =
    let m' = put p (record c { parent = new }) m in
    let keep = λ (q : Ptr) (other : q ≢ p). put-other m p (record c { parent = new }) q other in
    (
      m',
      rw (not_null p ne) (set_parent-some m p c ne at new),
      node_rep (record c { parent = new }) ne (put-here m p (record c { parent = new })) refl
          (Rep-frame left λ q i. keep q (λ e. let one = once q in ground arith))
          (Rep-frame right λ q i. keep q (λ e. let one = once q in ground arith)),
      λ q e. keep q (λ same. ground arith),
      λ g. refl,
    )

-- The top of a tree gets another colour.
recolored :
    (m : Heap) (k : Color) {k' : Color} {d : List ℕ} {ip : ℕ} {above p q : Ptr} {l r : Tree}
    → Rep m.cells above q (node p k' d ip l r)
    → ((q : Ptr) → occurs q (node p k' d ip l r) ≤ 1)
    → (m' : Heap) × (set_color p k m ≡ some (tt, m'))
      × Rep m'.cells above q (node p k d ip l r)
      × ((x : Ptr) → x ≢ p → m'.cells x ≡ m.cells x)
      × ((g : ℕ) → m'.roots g ≡ m.roots g)
unfolding set_color store
recolored m k (node_rep {p} c ne at up left right) once =
    let keep = λ (q : Ptr) (other : q ≢ p). put-other m p (record c { color = k }) q other in
    (
      put p (record c { color = k }) m,
      rw (◌>>=◌, load-some m p c ne at) refl,
      node_rep (record c { color = k }) ne (put-here m p (record c { color = k })) up
          (Rep-frame left λ q i. keep q (λ e. let one = once q in ground arith))
          (Rep-frame right λ q i. keep q (λ e. let one = once q in ground arith)),
      keep,
      λ g. refl,
    )

-- What a command that gives no value leads to.
abbrev pub Becomes : (Ptr → ℕ) → ℕ → (Heap → Option (Unit {0} × Heap)) → Heap → Ctx → Tree → Type 0
Becomes nodes h run m ctx t =
    (m' : Heap) × (run m ≡ some (tt, m')) × Zip nodes h m' ctx t × Outside nodes h m m'

module _ {nodes : Ptr → ℕ} {h : ℕ} where
  pub set_color-Zip :
      {m : Heap} {ctx : Ctx} {p : Ptr} {k : Color} {d : List ℕ} {ip : ℕ} {l r : Tree}
      → Zip nodes h m ctx (node p k d ip l r)
      → (k' : Color) → Becomes nodes h (set_color p k') m ctx (node p k' d ip l r)
  set_color-Zip {m} {ctx} {p} {k} {d} {ip} {l} {r} z k' =
      let (m', run, tree, keep, roots) =
        recolored m k' z.tree (λ q. omega (arith, z.parts q, z.single q)) in
      (
        m',
        run,
        record {
          hole = z.hole;
          above = z.above;
          path =
              subst (λ root. PathRep m'.cells root z.hole z.above ctx) (sym (roots h))
                (PathRep-frame z.path
                  (λ q i. keep q (λ e. let a = z.parts q in let b = z.single q in ground arith)));
          tree = tree;
          parts = z.parts;
          single = z.single;
        },
        record {
          others = λ q e. keep q (λ same. let a = z.parts q in ground arith);
          roots = λ g ne. roots g;
        },
      )
