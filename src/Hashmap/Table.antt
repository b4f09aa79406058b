-- ===== src/Hashmap/Table.antt =====
-- net_hashmap_core.c: the whole map as a partial function from domains to addresses.
pub mod Add
pub mod Grow
pub mod Put
pub mod Session
use mathlib.Core.Path.{subst}
use simp_dserver.Prelude.{
  ℕ, zero, suc, ◌+◌, ◌*◌, ◌^◌, ◌≤◌, ◌<◌, ◌≡◌, ◌≢◌, refl, sym, ap, ◌∙◌, arith, none, some, Option,
  Option-cases, List, [], ◌∷◌, length, ◌↔◌, ◌==◌, if◌then◌else◌,
}
use simp_dserver.Hashmap.{init, lookup, inside_search}
use simp_dserver.Hashmap.Balanced.{RedBlack, leaf_ok, size}
use simp_dserver.Hashmap.Height.{inside_search-logarithmic}
use simp_dserver.Hashmap.Insert.{Bucket}
use simp_dserver.Hashmap.Memory.{Ptr, null, Heap}
use simp_dserver.Hashmap.Search.{Answers, present, absent}
use simp_dserver.Hashmap.Text.{hash, array_size}
use simp_dserver.Hashmap.Text.Hash.{hash-lt}
use simp_dserver.Hashmap.Text.Order.{IsDomain}
use simp_dserver.Hashmap.Tree.{Tree, leaf, Holds, leaf_rep}
use simp_dserver.Hashmap.Zipper.{Zip, around, occurs, top_rep, PathRep, Rep-frame, PathRep-frame}

-- An abstract map.
abbrev pub Host : Type 0
Host = List ℕ → Option ℕ

-- The memory stands for the map `f`: each of the 1024 buckets is a red-black search tree of at most
-- `count` nodes, on nodes of its own, and holds what `f` has of the domains that hash to it.
pub record Table (nodes : ℕ → Ptr → ℕ) (count : ℕ) (m : Heap) (f : Host) : Type 0 where
  pub trees : ℕ → Tree
  pub buckets : (h : ℕ) → h < array_size → Bucket (nodes h) h m (trees h)
  pub few : (h : ℕ) → h < array_size → size (trees h) ≤ count
  pub apart : (g h : ℕ) → g ≢ h → (q : Ptr) → nodes g q + nodes h q ≤ 1
  pub tells :
      (d : List ℕ) (h ip : ℕ)
      → IsDomain d
      → hash d (length d) ≡ some h
      → Holds (trees h) d ip ↔ (f d ≡ some ip)

-- What `net_hashmap_core_module_search` answers: the address, or 0.
abbrev pub or_zero : Option ℕ → ℕ
or_zero none = 0
or_zero (some ip) = ip

-- A bucket stays while its cells and its root do.
pub Bucket-frame :
    {nodes : Ptr → ℕ} {h : ℕ} {m m' : Heap} {t : Tree}
    → Bucket nodes h m t
    → ((q : Ptr) → 0 < nodes q → m'.cells q ≡ m.cells q)
    → m'.roots h ≡ m.roots h
    → Bucket nodes h m' t
Bucket-frame {h} {m'} b keep root = record {
  zip = record {
    hole = b.zip.hole;
    above = b.zip.above;
    path =
        subst (λ x. PathRep m'.cells x b.zip.hole b.zip.above []) (sym root)
          (PathRep-frame b.zip.path (λ q i. keep q (omega (arith, b.zip.parts q, i))));
    tree = Rep-frame b.zip.tree (λ q i. keep q (omega (arith, b.zip.parts q, i)));
    parts = b.zip.parts;
    single = b.zip.single;
  };
  depth = b.depth;
  balanced = b.balanced;
  searches = b.searches;
}

-- After `init` the map is empty.
pub init-Table : (m : Heap) → Table (λ h q. 0) 0 (init m) (λ d. none)
unfolding init
init-Table m = record {
  trees = λ h. leaf;
  buckets = λ h i. record {
    zip = record {
      hole = null;
      above = null;
      path = top_rep refl;
      tree = leaf_rep;
      parts = λ q. refl;
      single = λ q. omega arith;
    };
    depth = 0;
    balanced = leaf_ok;
    searches = tt;
  };
  few = λ h i. omega arith;
  apart = λ g h ne q. omega arith;
  tells = λ d h ip dom e. (λ held. elim held [ ], λ e. ground arith);
}

Answers-or_zero :
    (t : Tree) (d : List ℕ) (o : Option ℕ) (v : ℕ)
    → ((ip : ℕ) → Holds t d ip ↔ (o ≡ some ip))
    → Answers t d v
    → v ≡ or_zero o
Answers-or_zero t d o v tells (present held) = sym (ap or_zero ((tells v).0 held))
Answers-or_zero t d none v tells (absent e none_held) = e
Answers-or_zero t d (some ip) v tells (absent e none_held) =
    absurd (none_held ip ((tells ip).1 refl))

-- Looking a domain that fits up in a memory that stands for `f`, no bucket having `2 ^ j - 1` nodes,
-- ends with fuel `2 * j` and without a fault, changes nothing, and gives the address that `f` has for
-- the domain, or 0.
pub lookup_refines :
    {nodes : ℕ → Ptr → ℕ} {count : ℕ} (j : ℕ) (m : Heap) (f : Host) (d : List ℕ)
    → Table nodes count m f
    → suc count < 2 ^ j
    → IsDomain d
    → lookup (2 * j) d (length d) m ≡ some (or_zero (f d), m)
unfolding lookup
lookup_refines j m f d table room dom =
    let (h, named, h_lt) = hash-lt d (length d) (omega arith) in
    let small = table.few h h_lt in
    let (v, run, ans) =
      inside_search-logarithmic j h d m (table.trees h) (table.buckets h h_lt) (omega arith) dom in
    rw
      (
        lookup,
        named,
        run,
        Answers-or_zero (table.trees h) d (f d) v (λ ip. table.tells d h ip dom named) ans,
      )
      refl
