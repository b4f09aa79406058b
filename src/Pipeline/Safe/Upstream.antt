-- ===== src/Pipeline/Safe/Upstream.antt =====
-- The rounds of the forwarding part and the responses from upstream keep the nodes owned.
use mathlib.Core.Path.{subst}
use mathlib.Core.Option.{some-injective}
use simp_dserver.Prelude.{
  one_if, ℕ, suc, ◌+◌, ◌≡◌, sym, ap, ◌∙◌, inl, inr, Bool, true, false, some, List, [], ◌∷◌, ◌++◌,
}
use simp_dserver.Prelude.Faults.{>>=-eq-some}
use simp_dserver.Message.{Node}
use simp_dserver.Ring.{Ring}
use simp_dserver.Ring.Inv.{contents}
use simp_dserver.Hashmap.Memory.{Ptr, update}
use simp_dserver.Forward.{Server, gethostaddr, udp_response, parse_response}
use simp_dserver.Forward.Effects.{gethostaddr-effect, parse_response-effect}
use simp_dserver.Pipeline.{System, forward_round, respond}
use simp_dserver.Pipeline.Places.{update-here, update-other, enqueue-cases, dequeue-cases}
use simp_dserver.Pipeline.Owned.{Owned, count, put-Owned, set-Owned, taken-Owned}
use simp_dserver.Pipeline.Safe.{
  IsSafe, places, in_inbox, in_outbox, waiting, appended, headed, removed, enqueued-Owned,
}
use simp_dserver.Pipeline.Safe.Rounds.{there}

-- A node that is forwarded waits in one list.
file-IsSafe :
    (y : System) (p : Ptr) (n : Node) (h : ℕ) (s : IsSafe y)
    → s.owned.place p ≡ 0
    → IsSafe (record y {
      server = record (y.server) {
        nodes = update y.server.nodes p (some n);
        pending = update y.server.pending h (y.server.pending h ++ (p ∷ []));
      };
    })
file-IsSafe y p n h s loose =
    let w = y.server.pending in
    let (o, same) = set-Owned s.owned p n in
    record {
      requests_IsValid = s.requests_IsValid;
      inbox_IsValid = s.inbox_IsValid;
      outbox_IsValid = s.outbox_IsValid;
      owned = put-Owned o (suc (suc (suc h))) p (same p ∙ loose) (there y.server.nodes p n) (
          waiting h (λ x. ap (count x) (update-here w h (w h ++ (p ∷ []))) ∙ appended p (w h) x)
            (λ j ne. update-other w h (w h ++ (p ∷ [])) j ne));
    }

pub forward_round-IsSafe :
    (y y' : System) (fuel : ℕ) → IsSafe y → forward_round (suc fuel) y ≡ some y' → IsSafe y'
unfolding forward_round
forward_round-IsSafe y y' fuel s e =
    let w = y.server.pending in
    elim (dequeue-cases s.inbox_IsValid fuel) [
      | inl (r', run, v', same) ↦ subst IsSafe (some-injective _ y' (rw run at e)) (record {
        requests_IsValid = s.requests_IsValid;
        inbox_IsValid = v';
        outbox_IsValid = s.outbox_IsValid;
        owned =
            subst
              (λ q.
                Owned y.server.nodes (places (contents y.requests) q (contents y.server.outbox) w))
              (sym same) s.owned;
      })
      | inr (p, r', run, v', held) ↦
          let (o, loose, alive) =
            taken-Owned s.owned 1 p (in_inbox (headed p (contents r') held)) in
          let taken : Server = record (y.server) { inbox = r' } in
          let ((server, query), filed, e1) = >>=-eq-some (gethostaddr p taken) _ y' (rw run at e) in
          let (n, h, effect) = gethostaddr-effect p taken server query filed in
          subst IsSafe (some-injective _ y' e1) (
            subst
              (λ (t : Server).
                IsSafe (record y { server = t; queries = y.queries ++ (query ∷ []) }))
              (sym effect)
              (file-IsSafe (record y { server = taken; queries = y.queries ++ (query ∷ []) }) p n h
                (record {
                  requests_IsValid = s.requests_IsValid;
                  inbox_IsValid = v';
                  outbox_IsValid = s.outbox_IsValid;
                  owned = o;
                })
                loose))
    ]

-- A node that is answered moves from its list to the ring of the bundle.
deliver-IsSafe :
    (y : System) (fuel fresh bufflen : ℕ) (buff : List ℕ) (server : Server)
    → IsSafe y
    → parse_response (suc fuel) fresh buff bufflen y.server ≡ some server
    → IsSafe (record y { server = server })
deliver-IsSafe y fuel fresh bufflen buff server s e =
    let w = y.server.pending in
    let (h, p, rest, n, hosts, status, outbox, without, queued, effect) =
      parse_response-effect (suc fuel) fresh buff bufflen y.server server e in
    let (o1, loose, alive) = taken-Owned s.owned (suc (suc (suc h))) p (
      waiting h
        (λ x. removed without x ∙ ap (λ q. one_if x p + count x q) (sym (update-here w h rest)))
        (λ j ne. sym (update-other w h rest j ne))) in
    let (o2, same) = set-Owned o1 p n in
    let (st, r', run, v', cases) = enqueue-cases s.outbox_IsValid fuel p in
    let result : Ring → Server = λ r. record (y.server) {
      nodes = update y.server.nodes p (some n);
      pending = update w h rest;
      hosts = hosts;
      outbox = r;
    } in
    let ring = ap (λ t. t.1) (some-injective (status, outbox) (st, r') (sym queued ∙ run)) in
    subst (λ (t : Server). IsSafe (record y { server = t })) (sym (effect ∙ ap result ring))
      (record {
        requests_IsValid = s.requests_IsValid;
        inbox_IsValid = s.inbox_IsValid;
        outbox_IsValid = v';
        owned =
            enqueued-Owned (contents y.server.outbox) (contents r') 2
              (λ q. places (contents y.requests) (contents y.server.inbox) q (update w h rest))
              (λ q q' more. in_outbox more) o2 (same p ∙ loose) (there y.server.nodes p n) cases;
      })

pub respond-IsSafe :
    (y y' : System) (fuel : ℕ) (fresh : Ptr) (stale : List ℕ) (readable : Bool) (datagram : List ℕ)
    → IsSafe y
    → respond (suc fuel) fresh stale readable datagram y ≡ some y'
    → IsSafe y'
unfolding respond udp_response
respond-IsSafe y y' fuel fresh stale false datagram s e = subst IsSafe (some-injective _ y' e) s
respond-IsSafe y y' fuel fresh stale true datagram s e =
    let (server, delivered, e1) =
      >>=-eq-some (udp_response (suc fuel) fresh stale true datagram y.server) _ y' e in
    subst IsSafe (some-injective _ y' e1) (deliver-IsSafe y fuel fresh _ _ server s delivered)
