-- ===== src/Forward/Effects.antt =====
-- net_forward.c: what a handler that ends has done to the nodes, the lists and the ring of the bundle.
use mathlib.Core.Path.{subst}
use mathlib.Core.Option.{some-injective}
use simp_dserver.Prelude.{
  Bool, ℕ, suc, ◌+◌, ◌≡◌, sym, ap, ◌∙◌, inl, inr, Option, some, List, [], ◌∷◌, ◌++◌, ◌==◌,
  if◌then◌else◌, Bool-cases, length,
}
use simp_dserver.Prelude.Faults.{◌>>=◌, >>=-eq-some}
use simp_dserver.Message.{Node, header_len, load16, or16}
use simp_dserver.Ring.{Ring, Status, enqueue}
use simp_dserver.Hashmap.{insert}
use simp_dserver.Hashmap.Memory.{Ptr, Heap, update}
use simp_dserver.Forward.{
  Server, gethostaddr, parse_response, take_first, integer_hash, scan, resolve,
}

-- What `take_first` gives comes from the list: `rest` is the list without `p`, once.
pub data Without (p : Ptr) : List Ptr → List Ptr → Type 0 where
  at_head : {ps : List Ptr} → Without p (p ∷ ps) ps
  behind : {q : Ptr} {ps rest : List Ptr} → Without p ps rest → Without p (q ∷ ps) (q ∷ rest)

take_first-Without :
    (nodes : Ptr → Option Node) (iden : ℕ) (ps : List Ptr) (p : Ptr) (rest : List Ptr)
    → take_first nodes iden ps ≡ some (p, rest)
    → Without p ps rest
unfolding take_first
take_first-Without nodes iden [] p rest e = cc
take_first-Without nodes iden (q ∷ ps) p rest e =
    let (n, at, e1) = >>=-eq-some (nodes q) _ (p, rest) e in
    let picked : Option (Ptr × List Ptr) = take_first nodes iden ps >>= λ t. some (t.0, q ∷ t.1) in
    let whole = λ (b : Bool). if b then some (q, ps) else picked in
    elim (Bool-cases (n.iden == iden)) [
      | inl same ↦
          subst (λ t. Without t.0 (q ∷ ps) t.1)
            (some-injective (q, ps) (p, rest) (sym (ap whole same) ∙ e1)) at_head
      | inr differs ↦
          let ((p', rest'), found, e2) =
            >>=-eq-some (take_first nodes iden ps) (λ t. some (t.0, q ∷ t.1)) (p, rest)
              (sym (ap whole differs) ∙ e1) in
          subst (λ t. Without t.0 (q ∷ ps) t.1) (some-injective (p', q ∷ rest') (p, rest) e2)
            (behind (take_first-Without nodes iden ps p' rest' found))
    ]

pub gethostaddr-effect :
    (p : Ptr) (s : Server) (s' : Server) (query : List ℕ)
    → gethostaddr p s ≡ some (s', query)
    → (n : Node) × (h : ℕ) × (s' ≡ record s {
      nodes = update s.nodes p (some n);
      pending = update s.pending h (s.pending h ++ (p ∷ []));
    })
unfolding gethostaddr
gethostaddr-effect p s s' query e =
    let (n, at, e1) = >>=-eq-some (s.nodes p) _ (s', query) e in
    let (flags, set, e2) = >>=-eq-some (n.flags) _ (s', query) e1 in
    let (request, marked, e3) = >>=-eq-some (or16 n.request flags 1) _ (s', query) e2 in
    (
      record n { request = request },
      integer_hash (n.iden),
      sym (ap (λ t. t.0) (some-injective _ (s', query) e3)),
    )

pub parse_response-effect :
    (fuel : ℕ) (fresh : Ptr) (buff : List ℕ) (bufflen : ℕ) (s s' : Server)
    → parse_response fuel fresh buff bufflen s ≡ some s'
    → (h : ℕ) × (p : Ptr) × (rest : List Ptr) × (n : Node) × (hosts : Heap) × (status : Status)
      × (outbox : Ring) × Without p (s.pending h) rest
      × (enqueue fuel s.outbox p ≡ some (status, outbox))
      × (s' ≡ record s {
        nodes = update s.nodes p (some n);
        pending = update s.pending h rest;
        hosts = hosts;
        outbox = outbox;
      })
unfolding parse_response
parse_response-effect fuel fresh buff bufflen s s' e =
    let (iden, read, e1) = >>=-eq-some (load16 buff 0) _ s' e in
    let ((p, rest), first, e2) =
      >>=-eq-some (take_first s.nodes iden (s.pending (integer_hash iden))) _ s' e1 in
    let (n, at, e3) = >>=-eq-some (s.nodes p) _ s' e2 in
    let (found, scanned, e4) =
      >>=-eq-some (scan (suc (length buff)) buff bufflen (header_len + n.host_len + 6)) _ s' e3 in
    let n' = resolve found n in
    let ((inserted, hosts), put, e5) =
      >>=-eq-some (insert fuel fresh (n'.shost) (n'.host_len) (n'.ipv4) s.hosts) _ s' e4 in
    let ((status, outbox), queued, e6) = >>=-eq-some (enqueue fuel s.outbox p) _ s' e5 in
    (
      integer_hash iden,
      p,
      rest,
      n',
      hosts,
      status,
      outbox,
      take_first-Without s.nodes iden _ p rest first,
      queued,
      sym (some-injective _ s' e6),
    )
