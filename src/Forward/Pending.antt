-- ===== src/Forward/Pending.antt =====
-- net_forward.c: a response finds the node that waits for it.
use simp_dserver.Prelude.{
  ℕ, suc, ◌+◌, ◌*◌, ◌%◌, ◌^◌, ◌<◌, ◌≡◌, ◌≢◌, refl, sym, ap, ◌∙◌, inl, inr, Bool-cases,
  if◌then◌else◌, arith, Bool, Option, some, List, [], ◌∷◌, ◌++◌, length, ◌==◌, true, false,
}
use mathlib.Core.Option.{some-injective}
use simp_dserver.Prelude.Faults.{◌>>=◌, >>=-eq-some}
use simp_dserver.Prelude.Bits.{bit_and_mask}
use simp_dserver.Message.{Node, header_len}
use simp_dserver.Ring.{Ring, Status, enqueue}
use simp_dserver.Hashmap.{insert}
use simp_dserver.Hashmap.Memory.{Ptr, Heap, update}
use simp_dserver.Work.Name.{At}
use simp_dserver.Forward.{
  Server, integer_hash, mix, hash_radio, hash_round, list_size, take_first, resolve, parse_response,
}
use simp_dserver.Forward.Records.{Answer, IsAnswer, wire, wires, ArePassed, load16-At}
use simp_dserver.Forward.Scan.{scan-first_address}

-- Every identifier is hashed to the index of a list.
pub integer_hash-lt : (iden : ℕ) → integer_hash iden < list_size
unfolding integer_hash
integer_hash-lt iden =
    let e = bit_and_mask 12 (mix ((iden + hash_radio) % 2 ^ 32) hash_radio hash_round) in
    omega (arith, e)

-- Nodes that wait for other identifiers.
abbrev pub Others : (Ptr → Option Node) → ℕ → List Ptr → Type 0
Others nodes iden [] = Unit
Others nodes iden (p ∷ ps) =
    ((n : Node) × (nodes p ≡ some n) × (n.iden ≢ iden)) × Others nodes iden ps

differs : (a b : ℕ) → a ≢ b → (a == b) ≡ false
differs a b ne = ground arith

same : (a b : ℕ) → a ≡ b → (a == b) ≡ true
same a b e = ground arith

pub take_first-found :
    (nodes : Ptr → Option Node) (iden : ℕ) (before after : List Ptr) (p : Ptr) (n : Node)
    → Others nodes iden before
    → nodes p ≡ some n
    → n.iden ≡ iden
    → take_first nodes iden (before ++ (p ∷ after)) ≡ some (p, before ++ after)
unfolding take_first
take_first-found nodes iden [] after p n others at e = rw (at, same (n.iden) iden e) refl
take_first-found nodes iden (q ∷ qs) after p n ((m, at_q, ne), others) at e =
    rw (at_q, differs (m.iden) iden ne, take_first-found nodes iden qs after p n others at e) refl

-- What is taken out of a list is its first node with the identifier.
pub take_first-splits :
    (nodes : Ptr → Option Node) (iden : ℕ) (ps : List Ptr) (p : Ptr) (rest : List Ptr)
    → take_first nodes iden ps ≡ some (p, rest)
    → (n : Node) × (before : List Ptr) × (after : List Ptr) × (nodes p ≡ some n)
      × (n.iden ≡ iden)
      × Others nodes iden before
      × (ps ≡ before ++ (p ∷ after))
      × (rest ≡ before ++ after)
unfolding take_first
take_first-splits nodes iden [] p rest e = cc
take_first-splits nodes iden (q ∷ ps) p rest e =
    let (n, at, e1) = >>=-eq-some (nodes q) _ (p, rest) e in
    let picked : Option (Ptr × List Ptr) = take_first nodes iden ps >>= λ t. some (t.0, q ∷ t.1) in
    let whole = λ (b : Bool). if b then some (q, ps) else picked in
    elim (Bool-cases (n.iden == iden)) [
      | inl found ↦
          let e2 = some-injective (q, ps) (p, rest) (sym (ap whole found) ∙ e1) in
          let is_p : q ≡ p = ap (λ t. t.0) e2 in
          (
            n,
            [],
            ps,
            ap nodes (sym is_p) ∙ at,
            ground (arith, found),
            tt,
            ap (λ x. x ∷ ps) is_p,
            ap (λ t. t.1) (sym e2),
          )
      | inr other ↦
          let ((p', rest'), run, e2) =
            >>=-eq-some (take_first nodes iden ps) (λ t. some (t.0, q ∷ t.1)) (p, rest)
              (sym (ap whole other) ∙ e1) in
          let e3 = some-injective (p', q ∷ rest') (p, rest) e2 in
          let is_p : p' ≡ p = ap (λ t. t.0) e3 in
          let (m, before, after, at_p, is_iden, others, whole_list, left) =
            take_first-splits nodes iden ps p' rest' run in
          (
            m,
            q ∷ before,
            after,
            ap nodes (sym is_p) ∙ at_p,
            is_iden,
            ((n, at, ground (arith, other)), others),
            ap (λ xs. q ∷ xs) (whole_list ∙ ap (λ x. before ++ (x ∷ after)) is_p),
            ap (λ t. t.1) (sym e3) ∙ ap (λ xs. q ∷ xs) left,
          )
    ]

-- A response starts with an identifier, for which a node waits behind nodes with others. Behind the
-- header and the question, as long as the node's, stand records with data of other lengths than
-- four bytes, at most as many as the buffer has bytes, and then one with an address, which begins
-- inside the response. The name of each of these records is a pointer, or it ends with its only
-- zero byte and does not begin like a pointer: labels that end in a pointer are excluded. Where the
-- insertion into the host map and the enqueue end, the response is handled without a fault; the
-- node, and no other, has left its list; it has the address, which was inserted with its host, and
-- it is what was enqueued.
pub parse_response-delivers :
    (s : Server) (p : Ptr) (n : Node) (before after : List Ptr) (rs : List Answer) (r : Answer)
    (rest : List ℕ) (i j a b c d fuel bufflen : ℕ) (fresh : Ptr) (buff tail : List ℕ) (ok : Bool)
    (hosts : Heap) (status : Status) (outbox : Ring)
    → s.pending (integer_hash n.iden) ≡ before ++ (p ∷ after)
    → Others s.nodes n.iden before
    → s.nodes p ≡ some n
    → n.iden ≡ i + 256 * j
    → At buff 0 (i ∷ j ∷ tail)
    → ArePassed rs
    → IsAnswer r
    → r.rdata ≡ a ∷ b ∷ c ∷ d ∷ []
    → At buff (header_len + n.host_len + 6) (wires rs ++ (wire r ++ rest))
    → header_len + n.host_len + 6 + length (wires rs) < bufflen
    → length rs < suc (length buff)
    → insert fuel fresh (n.shost) (n.host_len) (a + 256 * b + 65536 * (c + 256 * d)) s.hosts
      ≡ some (ok, hosts)
    → enqueue fuel s.outbox p ≡ some (status, outbox)
    → parse_response fuel fresh buff bufflen s
      ≡ some (record s {
        nodes = update s.nodes p (some (record n { ipv4 = a + 256 * b + 65536 * (c + 256 * d) }));
        pending = update s.pending (integer_hash n.iden) (before ++ after);
        hosts = hosts;
        outbox = outbox;
      })
unfolding parse_response resolve
parse_response-delivers s p n before after rs r rest i j a b c d fuel bufflen fresh buff tail ok
      hosts status outbox listed others at iden start passed good e answers inside enough inserted
      queued =
    rw
      (
        load16-At i j start,
        ← iden,
        listed,
        take_first-found s.nodes n.iden before after p n others at refl,
        at,
        scan-first_address rs r rest a b c d (suc (length buff)) bufflen buff
            (header_len + n.host_len + 6) passed good e answers inside enough,
        inserted,
        queued,
      )
      refl
