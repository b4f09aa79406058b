-- ===== src/Hashmap/Table/Grow.antt =====
-- net_hashmap_core.c: what an insertion leaves of the other buckets and of the map.
use mathlib.Core.Path.{subst}
use simp_dserver.Prelude.{
  ℕ, suc, ◌<◌, ◌≡◌, ◌≢◌, sym, ap, ◌∙◌, arith, none, some, List, length, inl, inr, ◌==◌,
  if◌then◌else◌, Bool-cases, true, false,
}
use simp_dserver.Hashmap.Attach.{with_node}
use simp_dserver.Hashmap.Balanced.{size}
use simp_dserver.Hashmap.Insert.{Bucket, Gains}
use simp_dserver.Hashmap.Memory.{Ptr, Heap}
use simp_dserver.Hashmap.Table.{Host, Table, Bucket-frame}
use simp_dserver.Hashmap.Text.{hash, array_size}
use simp_dserver.Hashmap.Tree.{Tree}
use simp_dserver.Hashmap.Table.Put.{put_new, put_new-other, put_new_iff, some-injective}

-- One node more in the bucket `h`, and another tree there.
abbrev pub grow : (ℕ → Ptr → ℕ) → ℕ → Ptr → ℕ → Ptr → ℕ
grow nodes h new g = if g == h then with_node new (nodes g) else nodes g

abbrev replaced : (ℕ → Tree) → ℕ → Tree → ℕ → Tree
replaced trees h t g = if g == h then t else trees g

index_same : (g h : ℕ) → (g == h) ≡ true → g ≡ h
index_same g h e = ground arith

index_other : (g h : ℕ) → (g == h) ≡ false → g ≢ h
index_other g h e = ground arith

-- What an insertion changes of a table.
module _ {nodes : ℕ → Ptr → ℕ} {count : ℕ} {m : Heap} {f : Host}
    (table : Table nodes count m f) where
  pub kept :
      (m' : Heap) (g : Host) (new : Ptr)
      → ((h : ℕ) → nodes h new ≡ 0)
      → ((q : Ptr) → q ≢ new → m'.cells q ≡ m.cells q)
      → ((h : ℕ) → m'.roots h ≡ m.roots h)
      → ((e : List ℕ) → g e ≡ f e)
      → Table nodes (suc count) m' g
  kept m' g new free cells roots same = record {
    trees = table.trees;
    buckets = λ h i.
        Bucket-frame (table.buckets h i) (λ q in_it. cells q (λ e. let z = free h in ground arith))
          (roots h);
    few = λ h i. omega (arith, table.few h i);
    apart = table.apart;
    tells = λ d h ip dom named. rw (same d) (table.tells d h ip dom named);
  }

  -- The bucket `h` gets the node `new` with the domain `d`, which no bucket had.
  pub grown :
      (m' : Heap) (new h : ℕ) (t : Tree) (d : List ℕ) (ip : ℕ)
      → h < array_size
      → ((g : ℕ) → nodes g new ≡ 0)
      → hash d (length d) ≡ some h
      → f d ≡ none
      → Bucket (with_node new (nodes h)) h m' t
      → size t ≡ suc (size (table.trees h))
      → Gains (table.trees h) d ip t
      → ((q : Ptr) → q ≢ new → nodes h q ≡ 0 → m'.cells q ≡ m.cells q)
      → ((g : ℕ) → g ≢ h → m'.roots g ≡ m.roots g)
      → Table (grow nodes h new) (suc count) m' (put_new f d ip)
  grown m' new h t d ip h_lt free named none_yet bucket larger gains cells roots = record {
    trees = replaced table.trees h t;
    buckets = λ g i. elim (Bool-cases (g == h)) [
      | inl e ↦
          rw (e)
            (subst (λ x. Bucket (with_node new (nodes x)) x m' t) (sym (index_same g h e)) bucket)
      | inr e ↦
          let ne = index_other g h e in
          rw (e) (
            Bucket-frame (table.buckets g i)
              (λ q in_it.
                let w = table.apart g h ne q in
                let z = free g in cells q (λ same. ground arith) (omega arith))
              (roots g ne))
    ];
    few = λ g i. elim (Bool-cases (g == h)) [
      | inl e ↦ rw (e) (omega (arith, larger, table.few h h_lt))
      | inr e ↦ rw (e) (omega (arith, table.few g i))
    ];
    apart = λ a b ne q.
        let w = table.apart a b ne q in let x = free a in let y = free b in ground arith;
    tells = λ x g jp dom at_g. elim (Bool-cases (g == h)) [
      | inl e ↦
          let old = table.tells x h jp dom (at_g ∙ ap some (index_same g h e)) in
          let new_one = gains x jp in
          let is_it = put_new_iff f d ip none_yet x jp in
          rw (e) (
            λ held. is_it.0 (elim (new_one.0 held) [ inl it ↦ inl it | inr was ↦ inr (old.0 was) ]),
            λ it. new_one.1 (elim (is_it.1 it) [ inl it ↦ inl it | inr was ↦ inr (old.1 was) ]),
          )
      | inr e ↦
          let ne = λ (same : d ≡ x).
            index_other g h e
              (sym (some-injective h g (sym named ∙ ap (λ y. hash y (length y)) same ∙ at_g))) in
          rw (e, put_new-other f d ip none_yet x ne) (table.tells x g jp dom at_g)
    ];
  }
