-- ===== src/Hashmap/Table/Add.antt =====
-- net_hashmap_core.c, `net_hashmap_core_module_insert`, on the whole map.
use mathlib.Core.Path.{subst}
use simp_dserver.Prelude.{
  one_if, ℕ, zero, suc, ◌+◌, ◌*◌, ◌^◌, ◌≤◌, ◌<◌, ◌≡◌, ◌≢◌, refl, sym, ap, ◌∙◌, arith, some,
  Option-cases, List, [], ◌∷◌, length, inl, inr, leb, true,
}
use simp_dserver.Hashmap.{new_cell, copy_string, readable, insert, inside_insert}
use simp_dserver.Hashmap.Duplicate.{inside_insert-duplicate}
use simp_dserver.Hashmap.Height.{height-lt}
use simp_dserver.Hashmap.Insert.{Bucket-Rep, Gains, inside_insert-Inserted}
use simp_dserver.Hashmap.Memory.{Ptr, null, Heap, ◌>>=◌, ◌>>◌, store}
use simp_dserver.Hashmap.Search.{not_null}
use simp_dserver.Hashmap.Table.{Host, Table, Bucket-frame}
use simp_dserver.Hashmap.Text.{hash, domain_len}
use simp_dserver.Hashmap.Text.Hash.{hash-lt}
use simp_dserver.Hashmap.Text.Order.{IsText, IsDomain}
use simp_dserver.Hashmap.Tree.{Holds}
use simp_dserver.Hashmap.Zipper.Edit.{put, put-here, put-other}
use simp_dserver.Hashmap.Table.Put.{put_new, put_new-old, is_new, none-some}
use simp_dserver.Hashmap.Table.Grow.{grow, kept, grown}

copy_string-whole : (n : ℕ) (d : List ℕ) → IsText d → length d ≤ n → copy_string n d ≡ d
unfolding copy_string
copy_string-whole zero [] t fits = refl
copy_string-whole zero (c ∷ cs) t fits = ground arith
copy_string-whole (suc n) [] t fits = refl
copy_string-whole (suc n) (c ∷ cs) t fits = ground (arith, copy_string-whole n cs)

new_cell-domain : (d : List ℕ) (ip : ℕ) → IsDomain d → (new_cell d (length d) ip).domain ≡ d
unfolding new_cell readable
new_cell-domain d ip dom = rw (copy_string-whole (length d) d dom.0 (omega arith)) (ground arith)

new_cell-ipv4 : (d : List ℕ) (ip : ℕ) → (new_cell d (length d) ip).ipv4 ≡ ip
unfolding new_cell
new_cell-ipv4 d ip = refl

insert_run :
    (fuel fresh h ip : ℕ) (d : List ℕ) (m : Heap)
    → fresh ≢ null
    → IsDomain d
    → hash d (length d) ≡ some h
    → insert fuel fresh d (length d) ip m
      ≡ inside_insert fuel h fresh (put fresh (new_cell d (length d) ip) m)
unfolding insert store
insert_run fuel fresh h ip d m ne dom named =
    let fits : leb (length d) domain_len ≡ true = ground arith in
    rw (insert, not_null fresh ne, fits, ◌>>◌, ◌>>=◌, named) refl

-- What an insertion into a memory that stands for `f` leaves.
pub record Added (nodes : ℕ → Ptr → ℕ) (count j fresh : ℕ) (d : List ℕ) (ip : ℕ) (m : Heap)
    (f : Host) : Type 0 where
  pub after : Heap
  pub owned : ℕ → Ptr → ℕ
  pub ends : insert (2 * j) fresh d (length d) ip m ≡ some (is_new (f d), after)
  pub table : Table owned (suc count) after (put_new f d ip)
  pub only : (h : ℕ) (q : Ptr) → owned h q ≤ one_if q fresh + nodes h q

-- Inserting a domain that fits into a memory that stands for `f`, on a node that is not NULL and in no
-- bucket, no bucket having `2 ^ j - 1` nodes, ends with fuel `2 * j` and without a fault. It returns 0
-- if `f` did not have the domain, and -1 if it had; the memory then stands for `f` with the address
-- for the domain, or for `f` as it was.
pub insert_refines :
    {nodes : ℕ → Ptr → ℕ} {count : ℕ} (j fresh : ℕ) (d : List ℕ) (ip : ℕ) (m : Heap) (f : Host)
    → Table nodes count m f
    → fresh ≢ null
    → ((h : ℕ) → nodes h fresh ≡ 0)
    → suc count < 2 ^ j
    → IsDomain d
    → Added nodes count j fresh d ip m f
insert_refines {nodes} {count} j fresh d ip m f table ne free room dom =
    let (h, named, h_lt) = hash-lt d (length d) (omega arith) in
    let c = new_cell d (length d) ip in
    let m1 = put fresh c m in
    let away = put-other m fresh c in
    let b =
      Bucket-frame {m' = m1} (table.buckets h h_lt)
        (λ q in_it. away q (λ e. let z = free h in ground arith)) refl in
    let small = table.few h h_lt in
    let is_d = new_cell-domain d ip dom in
    let dom' = subst IsDomain (sym is_d) dom in
    let enough = height-lt j b.balanced (omega arith) in
    let run = insert_run (2 * j) fresh h ip d m ne dom named in
    elim (Option-cases (f d)) [
      | inl none_yet ↦
          let s =
            inside_insert-Inserted (2 * j) h fresh c m1 (table.trees h) b ne (put-here m fresh c)
              (free h) dom'
              (λ jp held. none-some jp (
                sym none_yet
                ∙ (table.tells d h jp dom named).0
                    (subst (λ x. Holds (table.trees h) x jp) is_d held)))
              enough in
          let gains =
            subst (λ x. Gains (table.trees h) x ip s.result) is_d
              (subst (λ y. Gains (table.trees h) c.domain y s.result) (new_cell-ipv4 d ip)
                s.gains) in
          record {
            after = s.after;
            owned = grow nodes h fresh;
            ends = run ∙ s.ends ∙ ap (λ o. some (is_new o, s.after)) (sym none_yet);
            table =
                grown table s.after fresh h s.result d ip h_lt free named none_yet s.bucket s.larger
                  gains (λ q n z. s.outside.others q (ground arith) ∙ away q n) s.outside.roots;
            only = λ g q. ground arith;
          }
      | inr (jp, old) ↦ record {
        after = m1;
        owned = nodes;
        ends =
            run
            ∙ inside_insert-duplicate (2 * j) h fresh c jp m1 (table.trees h) ne
                (put-here m fresh c) (Bucket-Rep b) b.searches dom' enough
                (subst (λ x. Holds (table.trees h) x jp) (sym is_d)
                  ((table.tells d h jp dom named).1 old))
            ∙ ap (λ o. some (is_new o, m1)) (sym old);
        table =
            kept table m1 (put_new f d ip) fresh free away (λ g. refl) (put_new-old f d ip jp old);
        only = λ g q. omega arith;
      }
    ]
