-- ===== src/Forward/Filed.antt =====
-- net_forward.c: every waiting node stands in the list of its identifier.
use mathlib.Core.Path.{subst}
use mathlib.Core.Option.{some-injective}
use simp_dserver.Prelude.{
  ℕ, suc, ◌+◌, ◌<◌, ◌≡◌, ◌≢◌, refl, sym, ap, ◌∙◌, ◌⊎◌, inl, inr, arith, true, false, Option, none,
  some, List, [], ◌∷◌, ◌++◌, length, take, ◌==◌,
}
use simp_dserver.Prelude.Faults.{◌>>=◌, >>=-eq-some}
use simp_dserver.Message.{Node, header_len, load16}
use simp_dserver.Ring.{enqueue}
use simp_dserver.Hashmap.{insert}
use simp_dserver.Hashmap.Memory.{Ptr, update}
use simp_dserver.Forward.{
  Server, integer_hash, gethostaddr, take_first, resolve, scan, parse_response,
}
use simp_dserver.Forward.Flags.{or16-some}
use simp_dserver.Forward.Pending.{Others, take_first-splits}

abbrev pub AllFiled : (Ptr → Option Node) → ℕ → List Ptr → Type 0
AllFiled nodes h [] = Unit
AllFiled nodes h (p ∷ ps) =
    ((n : Node) × (nodes p ≡ some n) × (integer_hash n.iden ≡ h)) × AllFiled nodes h ps

-- Each list holds nodes whose identifier is hashed to its index.
abbrev pub IsFiled : Server → Type 0
IsFiled s = (h : ℕ) → AllFiled s.nodes h (s.pending h)

pub equal_cases : (a b : ℕ) → ((a == b) ≡ true) × (a ≡ b) ⊎ ((a == b) ≡ false) × (a ≢ b)
equal_cases a b = ground arith

abbrev iden_of : Option Node → ℕ
iden_of none = 0
iden_of (some n) = n.iden

-- A write to a node that keeps its identifier keeps the lists.
update-AllFiled :
    (nodes : Ptr → Option Node) (p h : ℕ) (m n : Node) (ps : List Ptr)
    → nodes p ≡ some n
    → m.iden ≡ n.iden
    → AllFiled nodes h ps
    → AllFiled (update nodes p (some m)) h ps
update-AllFiled nodes p h m n [] at e filed = tt
update-AllFiled nodes p h m n (q ∷ qs) at e ((k, at_q, hashed), rest) = elim (equal_cases q p) [
  | inl (test, same) ↦
      let same_iden : n.iden ≡ k.iden = ap iden_of (sym at ∙ ap nodes (sym same) ∙ at_q) in
      (
        (m, rw test refl, ap integer_hash (e ∙ same_iden) ∙ hashed),
        update-AllFiled nodes p h m n qs at e rest,
      )
  | inr (test, ne) ↦ ((k, rw test at_q, hashed), update-AllFiled nodes p h m n qs at e rest)
]

append-AllFiled :
    (nodes : Ptr → Option Node) (h p : ℕ) (n : Node) (ps : List Ptr)
    → AllFiled nodes h ps
    → nodes p ≡ some n
    → integer_hash n.iden ≡ h
    → AllFiled nodes h (ps ++ (p ∷ []))
append-AllFiled nodes h p n [] filed at e = ((n, at, e), tt)
append-AllFiled nodes h p n (q ∷ qs) filed at e =
    (filed.0, append-AllFiled nodes h p n qs filed.1 at e)

-- Forwarding a node whose flags lie in its request succeeds; if every waiting node stood in the list
-- of its identifier before, this holds afterwards, and the node is the last in its list.
pub gethostaddr-IsFiled :
    (s : Server) (p : Ptr) (n : Node) (f : ℕ)
    → IsFiled s
    → s.nodes p ≡ some n
    → n.flags ≡ some f
    → f + 1 < length (n.request)
    → (s' : Server) × (sent : List ℕ) × (gethostaddr p s ≡ some (s', sent))
      × IsFiled s'
      × (s'.pending (integer_hash n.iden) ≡ s.pending (integer_hash n.iden) ++ (p ∷ []))
unfolding gethostaddr
gethostaddr-IsFiled s p n f filed at flagged inside =
    let (request, run) = or16-some (n.request) f 1 inside in
    let m : Node = record n { request = request } in
    let kept =
      update-AllFiled s.nodes p (integer_hash n.iden) m n (s.pending (integer_hash n.iden)) at refl
        (filed (integer_hash n.iden)) in
    let moved =
      append-AllFiled (update s.nodes p (some m)) (integer_hash n.iden) p m
        (s.pending (integer_hash n.iden)) kept (ground arith) refl in
    (
      record s {
        nodes = update s.nodes p (some m);
        pending =
            update s.pending (integer_hash n.iden) (s.pending (integer_hash n.iden) ++ (p ∷ []));
      },
      take n.datalen request,
      rw (at, flagged, run) refl,
      λ h. elim (equal_cases h (integer_hash n.iden)) [
        | inl (test, same) ↦ rw test (
            subst
              (λ x.
                AllFiled (update s.nodes p (some m)) x
                  (s.pending (integer_hash n.iden) ++ (p ∷ [])))
              (sym same) moved)
        | inr (test, ne) ↦ rw test (update-AllFiled s.nodes p h m n (s.pending h) at refl (filed h))
      ],
      ground arith,
    )

Option-cases {ℓ} : {A : Type ℓ} (o : Option A) → (o ≡ none) ⊎ ((a : A) × (o ≡ some a))
Option-cases none = inl refl
Option-cases (some a) = inr (a, refl)

abbrev rest_of : Option (Ptr × List Ptr) → List Ptr
rest_of none = []
rest_of (some (p, ps)) = ps

take_first-AllFiled :
    (nodes : Ptr → Option Node) (iden h : ℕ) (ps : List Ptr) (q : Ptr) (rest : List Ptr)
    → AllFiled nodes h ps
    → take_first nodes iden ps ≡ some (q, rest)
    → AllFiled nodes h rest
unfolding take_first
take_first-AllFiled nodes iden h [] q rest filed e = ground arith
take_first-AllFiled nodes iden h (p ∷ ps) q rest ((n, at, hashed), filed) e =
    elim (equal_cases (n.iden) iden) [
      | inl (test, _) ↦
          let found : some (p, ps) ≡ some (q, rest) = sym (rw (at, test) refl) ∙ e in
          subst (AllFiled nodes h) (ap (rest_of) found) filed
      | inr (test, _) ↦ elim (Option-cases (take_first nodes iden ps)) [
        | inl nothing ↦
            let nope : none ≡ some (q, rest) = sym (rw (at, test, nothing) refl) ∙ e in
            ground (arith, nope)
        | inr ((r, rs), run) ↦
            let found : some (r, p ∷ rs) ≡ some (q, rest) = sym (rw (at, test, run) refl) ∙ e in
            subst (AllFiled nodes h) (ap rest_of found)
              ((n, at, hashed), take_first-AllFiled nodes iden h ps r rs filed run)
      ]
    ]

abbrev Keeps : Option Server → Type 0
Keeps none = Unit
Keeps (some s) = IsFiled s

resolve-iden : (found : Option ℕ) (n : Node) → (resolve found n).iden ≡ n.iden
unfolding resolve
resolve-iden none n = refl
resolve-iden (some ip) n = refl

bind-Keeps {ℓ} :
    {A : Type ℓ} (o : Option A) (f : A → Option Server)
    → ((a : A) → o ≡ some a → Keeps (f a))
    → Keeps (o >>= f)
bind-Keeps none f keeps = tt
bind-Keeps (some a) f keeps = keeps a refl

delivered-AllFiled :
    (s : Server) (p h x : ℕ) (m n : Node) (rest : List Ptr)
    → IsFiled s
    → s.nodes p ≡ some n
    → m.iden ≡ n.iden
    → AllFiled s.nodes h rest
    → AllFiled (update s.nodes p (some m)) x (update s.pending h rest x)
delivered-AllFiled s p h x m n rest filed at e rest_filed = elim (equal_cases x h) [
  | inl (test, same) ↦ rw test (
      subst (λ y. AllFiled (update s.nodes p (some m)) y rest) (sym same)
        (update-AllFiled s.nodes p h m n rest at e rest_filed))
  | inr (test, ne) ↦ rw test (update-AllFiled s.nodes p x m n (s.pending x) at e (filed x))
]

parse_response-Keeps :
    (fuel : ℕ) (fresh : Ptr) (buff : List ℕ) (bufflen : ℕ) (s : Server)
    → IsFiled s
    → Keeps (parse_response fuel fresh buff bufflen s)
unfolding parse_response
parse_response-Keeps fuel fresh buff bufflen s filed = bind-Keeps (load16 buff 0) _ (λ iden read.
    bind-Keeps (take_first s.nodes iden (s.pending (integer_hash iden))) _ (λ taken run.
      bind-Keeps (s.nodes (taken.0)) _ (λ n at.
        bind-Keeps (scan (suc (length buff)) buff bufflen (header_len + n.host_len + 6)) _
          (λ found scanned.
            bind-Keeps
              (insert fuel fresh ((resolve found n).shost) ((resolve found n).host_len)
                ((resolve found n).ipv4) s.hosts)
              _
              (λ i inserted. bind-Keeps (enqueue fuel s.outbox (taken.0)) _ (λ o queued. λ x.
                delivered-AllFiled s (taken.0) (integer_hash iden) x (resolve found n) n (taken.1)
                  filed at (resolve-iden found n)
                  (take_first-AllFiled s.nodes iden (integer_hash iden)
                    (s.pending (integer_hash iden)) (taken.0) (taken.1) (filed (integer_hash iden))
                    run)))))))

-- A response that is handled without a fault, where every waiting node stood in the list of its
-- identifier before, leaves this so. Of the nodes that wait it takes out exactly one: the first in
-- its list that has the identifier at the start of the response; all others wait as before, in the
-- same order.
pub parse_response-IsFiled :
    (fuel : ℕ) (fresh : Ptr) (buff : List ℕ) (bufflen : ℕ) (s s' : Server)
    → IsFiled s
    → parse_response fuel fresh buff bufflen s ≡ some s'
    → IsFiled s'
      × (iden : ℕ) × (p : Ptr) × (n : Node) × (before : List Ptr) × (after : List Ptr) × (load16
            buff 0
          ≡ some iden)
      × (s.nodes p ≡ some n)
      × (n.iden ≡ iden)
      × Others s.nodes iden before
      × (s.pending (integer_hash iden) ≡ before ++ (p ∷ after))
      × (s'.pending ≡ update s.pending (integer_hash iden) (before ++ after))
unfolding parse_response
parse_response-IsFiled fuel fresh buff bufflen s s' filed run =
    let (iden, read, e1) = >>=-eq-some (load16 buff 0) _ s' run in
    let ((p, rest), first, e2) =
      >>=-eq-some (take_first s.nodes iden (s.pending (integer_hash iden))) _ s' e1 in
    let (n, at, e3) = >>=-eq-some (s.nodes p) _ s' e2 in
    let (found, scanned, e4) =
      >>=-eq-some (scan (suc (length buff)) buff bufflen (header_len + n.host_len + 6)) _ s' e3 in
    let n' = resolve found n in
    let ((inserted, hosts), put, e5) =
      >>=-eq-some (insert fuel fresh (n'.shost) (n'.host_len) (n'.ipv4) s.hosts) _ s' e4 in
    let ((status, outbox), queued, e6) = >>=-eq-some (enqueue fuel s.outbox p) _ s' e5 in
    let (m, before, after, at_p, is_iden, others, listed, left) =
      take_first-splits s.nodes iden (s.pending (integer_hash iden)) p rest first in
    (
      subst Keeps run (parse_response-Keeps fuel fresh buff bufflen s filed),
      iden,
      p,
      m,
      before,
      after,
      read,
      at_p,
      is_iden,
      others,
      listed,
      ap (λ x. x.pending) (sym (some-injective _ s' e6))
          ∙ ap (update s.pending (integer_hash iden)) left,
    )
