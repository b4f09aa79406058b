-- ===== src/Hashmap/Table/Session.antt =====
-- net_hashmap_core.c: calls of the map's operations one after another, from its initialization on.
use mathlib.Core.Path.{subst}
use simp_dserver.Prelude.{
  one_if, ℕ, suc, ◌+◌, ◌*◌, ◌^◌, ◌≤◌, ◌<◌, ◌≡◌, ◌≢◌, refl, ap, ◌∙◌, arith, none, some, Option,
  Option-cases, List, [], ◌∷◌, length, if◌then◌else◌, Bool, Bool-cases, inl, inr,
}
use simp_dserver.Hashmap.{init, insert, lookup}
use simp_dserver.Hashmap.Memory.{Ptr, null, Heap, Cmd, pure, ◌>>=◌}
use simp_dserver.Hashmap.Table.{Host, Table, init-Table, or_zero, lookup_refines}
use simp_dserver.Hashmap.Table.Add.{insert_refines}
use simp_dserver.Hashmap.Table.Put.{same_text, put_new, put_new-old, is_new, same_text_sound}
use simp_dserver.Hashmap.Text.Order.{IsDomain}

-- A call of `insert`, with the node that `malloc` gives for it.
pub record Call : Type 0 where
  pub fresh : Ptr
  pub domain : List ℕ
  pub ipv4 : ℕ

-- The calls in their order, and what they return.
abbrev pub insert_all : ℕ → List Call → Cmd (List Bool)
insert_all fuel [] = pure []
insert_all fuel (c ∷ cs) = do
  new ← insert fuel c.fresh c.domain (length c.domain) c.ipv4
  rest ← insert_all fuel cs
  pure (new ∷ rest)

-- The address that the first call with this domain gives it.
abbrev pub first_of : List Call → Host
first_of [] d = none
first_of (c ∷ cs) d = if same_text d c.domain then some c.ipv4 else first_of cs d

-- What the calls return: whether the domain is not in the map yet.
abbrev pub answers : Host → List Call → List Bool
answers f [] = []
answers f (c ∷ cs) = is_new (f c.domain) ∷ answers (put_new f c.domain c.ipv4) cs

-- The nodes are allocated and different, and the domains fit.
abbrev Unused : Ptr → List Call → Type 0
Unused p [] = Unit
Unused p (c ∷ cs) = (p ≢ c.fresh) × Unused p cs

abbrev pub IsSession : List Call → Type 0
IsSession [] = Unit
IsSession (c ∷ cs) = (c.fresh ≢ null) × IsDomain c.domain × Unused c.fresh cs × IsSession cs

-- No bucket has the nodes of the calls.
Apart : (ℕ → Ptr → ℕ) → List Call → Type 0
Apart nodes [] = Unit
Apart nodes (c ∷ cs) = ((h : ℕ) → nodes h c.fresh ≡ 0) × Apart nodes cs

Apart-after :
    (nodes owned : ℕ → Ptr → ℕ) (p : Ptr) (cs : List Call)
    → Unused p cs
    → Apart nodes cs
    → ((h : ℕ) (q : Ptr) → owned h q ≤ one_if q p + nodes h q)
    → Apart owned cs
unfolding Apart
Apart-after nodes owned p [] u a le = tt
Apart-after nodes owned p (c ∷ cs) u a le = (
  λ h. let w = le h c.fresh in let z = a.0 h in let ne = u.0 in ground arith,
  Apart-after nodes owned p cs u.1 a.1 le,
)

Apart-init : (cs : List Call) → Apart (λ h q. 0) cs
unfolding Apart
Apart-init [] = tt
Apart-init (c ∷ cs) = (λ h. refl, Apart-init cs)

-- The first address of a domain.
abbrev or_else : Option ℕ → Option ℕ → Option ℕ
or_else none b = b
or_else (some a) b = some a

put_new-first :
    (f : Host) (c : Call) (cs : List Call) (d : List ℕ)
    → or_else (put_new f c.domain c.ipv4 d) (first_of cs d) ≡ or_else (f d) (first_of (c ∷ cs) d)
put_new-first f c cs d = elim (Option-cases (f c.domain)) [
  | inl free ↦ elim (Bool-cases (same_text d c.domain)) [
    | inl same ↦ rw (put_new, free, same, ap f (same_text_sound d c.domain same) ∙ free) refl
    | inr other ↦ rw (put_new, free, other) refl
  ]
  | inr (jp, old) ↦ elim (Bool-cases (same_text d c.domain)) [
    | inl same ↦
        rw (put_new-old f c.domain c.ipv4 jp old d, ap f (same_text_sound d c.domain same) ∙ old)
          refl
    | inr other ↦ rw (put_new-old f c.domain c.ipv4 jp old d, other) refl
  ]
]

or_else-none : (a : Option ℕ) → a ≡ or_else a none
or_else-none none = refl
or_else-none (some x) = refl

-- What the calls leave, from a memory that stands for `f`.
record Served (j count : ℕ) (cs : List Call) (m : Heap) (f : Host) : Type 0 where
  after : Heap
  owned : ℕ → Ptr → ℕ
  ends : insert_all (2 * j) cs m ≡ some (answers f cs, after)
  host : Host
  table : Table owned (length cs + count) after host
  firsts : (d : List ℕ) → host d ≡ or_else (f d) (first_of cs d)

served :
    (j : ℕ) (cs : List Call) (nodes : ℕ → Ptr → ℕ) (count : ℕ) (m : Heap) (f : Host)
    → Table nodes count m f
    → IsSession cs
    → Apart nodes cs
    → suc (length cs + count) < 2 ^ j
    → Served j count cs m f
unfolding Apart
served j [] nodes count m f table s a room = record {
  after = m;
  owned = nodes;
  ends = refl;
  host = f;
  table = subst (λ x. Table nodes x m f) (omega arith) table;
  firsts = λ d. or_else-none (f d);
}
served j (c ∷ cs) nodes count m f table s a room =
    let one = insert_refines j c.fresh c.domain c.ipv4 m f table s.0 a.0 (omega arith) s.1 in
    let rest =
      served j cs one.owned (suc count) one.after (put_new f c.domain c.ipv4) one.table s.3
        (Apart-after nodes one.owned c.fresh cs s.2 a.1 one.only) (omega arith) in
    record {
      after = rest.after;
      owned = rest.owned;
      ends = rw (◌>>=◌, one.ends, rest.ends) refl;
      host = rest.host;
      table = subst (λ x. Table rest.owned x rest.after rest.host) (omega arith) rest.table;
      firsts = λ d. rest.firsts d ∙ put_new-first f c cs d;
    }

-- From the initialization on, any calls of `insert`, fewer than `2 ^ j - 1`, with domains that fit, on
-- nodes that are not NULL and all different, run without a fault with fuel `2 * j` for each, and
-- return what a map returns that keeps the first address of a domain. A search for any domain that
-- fits then gives the address of the first call with that domain, or 0 when no call had it.
pub session_lem :
    (j : ℕ) (cs : List Call) (m : Heap) (d : List ℕ)
    → IsSession cs
    → suc (length cs) < 2 ^ j
    → IsDomain d
    → (m' : Heap) × (insert_all (2 * j) cs (init m) ≡ some (answers (λ e. none) cs, m'))
      × (lookup (2 * j) d (length d) m' ≡ some (or_zero (first_of cs d), m'))
session_lem j cs m d s room dom =
    let done =
      served j cs (λ h q. 0) 0 (init m) (λ e. none) (init-Table m) s (Apart-init cs)
        (omega arith) in
    (
      done.after,
      done.ends,
      lookup_refines j done.after done.host d done.table (omega arith) dom
          ∙ ap (λ o. some (or_zero o, done.after)) (done.firsts d),
    )
