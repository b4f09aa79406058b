-- ===== src/Pipeline/Safe/Rounds.antt =====
-- Each callback and each round keeps the nodes owned.
use mathlib.Core.Path.{subst}
use mathlib.Core.Option.{some-injective}
use simp_dserver.Prelude.{
  ℕ, suc, ◌≡◌, ◌≢◌, sym, ◌∙◌, arith, inl, inr, Bool, Option, none, some, ◌==◌, Bool-cases,
  Option-cases,
}
use simp_dserver.Prelude.Faults.{>>=-eq-some}
use simp_dserver.Message.{Node}
use simp_dserver.Ring.Inv.{contents}
use simp_dserver.Hashmap.Memory.{Ptr, null, update}
use simp_dserver.Bundle.{Datagram, udp_cb, write_back}
use simp_dserver.Work.{Outcome, rejected, forwarded, answered, parser}
use simp_dserver.Pipeline.{System, receive, settle, found_in, work_round, bundle_round}
use simp_dserver.Pipeline.Places.{enqueue-cases, dequeue-cases}
use simp_dserver.Pipeline.Owned.{Owned, set-Owned, freed-Owned, taken-Owned}
use simp_dserver.Pipeline.Safe.{
  IsSafe, places, in_requests, in_inbox, in_outbox, headed, enqueued-Owned,
}

pub there : (m : Ptr → Option Node) (p : Ptr) (n : Node) → update m p (some n) p ≢ none
there m p n e = ground arith

-- What `udp_cb` queues is in no place before.
pub receive-IsSafe :
    (y y' : System) (fuel : ℕ) (fresh : Ptr) (fd : ℕ) (readable : Bool) (arrived : Option Datagram)
    → IsSafe y
    → y.server.nodes fresh ≡ none
    → receive (suc fuel) fresh fd readable arrived y ≡ some y'
    → IsSafe y'
unfolding receive
receive-IsSafe y y' fuel fresh fd readable arrived s unused e = elim (Bool-cases (fresh == null)) [
  | inl null_there ↦ absurd (let e' = rw null_there at e in cc)
  | inr real ↦ elim (Option-cases (udp_cb fd readable arrived)) [
    | inl nothing ↦ subst IsSafe (some-injective y y' (rw (real, nothing) at e)) s
    | inr (n, queued) ↦
        let (st, r', run, v', cases) = enqueue-cases s.requests_IsValid fuel fresh in
        let (o, same) = set-Owned s.owned fresh n in
        subst IsSafe (some-injective _ y' (rw (real, queued, run) at e)) (record {
          requests_IsValid = v';
          inbox_IsValid = s.inbox_IsValid;
          outbox_IsValid = s.outbox_IsValid;
          owned =
              enqueued-Owned (contents y.requests) (contents r') 0
                (λ q.
                  places q (contents y.server.inbox) (contents y.server.outbox) y.server.pending)
                (λ q q' more. in_requests more) o (same fresh ∙ s.owned.freed fresh unused)
                (there y.server.nodes fresh n) cases;
        })
  ]
]

settle-IsSafe :
    (y y' : System) (fuel : ℕ) (p : Ptr) (out : Outcome) (s : IsSafe y)
    → s.owned.place p ≡ 0
    → settle (suc fuel) p out y ≡ some y'
    → IsSafe y'
unfolding settle
settle-IsSafe y y' fuel p (rejected n) s loose e =
    let (o, same) = set-Owned s.owned p n in
    subst IsSafe (some-injective _ y' e) (record {
      requests_IsValid = s.requests_IsValid;
      inbox_IsValid = s.inbox_IsValid;
      outbox_IsValid = s.outbox_IsValid;
      owned = o;
    })
settle-IsSafe y y' fuel p (forwarded n) s loose e =
    let (st, r', run, v', cases) = enqueue-cases s.inbox_IsValid fuel p in
    let (o, same) = set-Owned s.owned p n in
    subst IsSafe (some-injective _ y' (rw run at e)) (record {
      requests_IsValid = s.requests_IsValid;
      inbox_IsValid = v';
      outbox_IsValid = s.outbox_IsValid;
      owned =
          enqueued-Owned (contents y.server.inbox) (contents r') 1
            (λ q. places (contents y.requests) q (contents y.server.outbox) y.server.pending)
            (λ q q' more. in_inbox more) o (same p ∙ loose) (there y.server.nodes p n) cases;
    })
settle-IsSafe y y' fuel p (answered n) s loose e =
    let (st, r', run, v', cases) = enqueue-cases s.outbox_IsValid fuel p in
    let (o, same) = set-Owned s.owned p n in
    subst IsSafe (some-injective _ y' (rw run at e)) (record {
      requests_IsValid = s.requests_IsValid;
      inbox_IsValid = s.inbox_IsValid;
      outbox_IsValid = v';
      owned =
          enqueued-Owned (contents y.server.outbox) (contents r') 2
            (λ q. places (contents y.requests) (contents y.server.inbox) q y.server.pending)
            (λ q q' more. in_outbox more) o (same p ∙ loose) (there y.server.nodes p n) cases;
    })

pub work_round-IsSafe :
    (y y' : System) (fuel : ℕ) → IsSafe y → work_round (suc fuel) y ≡ some y' → IsSafe y'
unfolding work_round
work_round-IsSafe y y' fuel s e =
    let w = y.server.pending in
    elim (dequeue-cases s.requests_IsValid fuel) [
      | inl (r', run, v', same) ↦ subst IsSafe (some-injective _ y' (rw run at e)) (record {
        requests_IsValid = v';
        inbox_IsValid = s.inbox_IsValid;
        outbox_IsValid = s.outbox_IsValid;
        owned =
            subst
              (λ q.
                Owned y.server.nodes
                  (places q (contents y.server.inbox) (contents y.server.outbox) w))
              (sym same) s.owned;
      })
      | inr (p, r', run, v', held) ↦
          let (o, loose, alive) =
            taken-Owned s.owned 0 p (in_requests (headed p (contents r') held)) in
          let (n, at, e1) = >>=-eq-some (y.server.nodes p) _ y' (rw run at e) in
          let (out, parsed, e2) =
            >>=-eq-some (parser (found_in (suc fuel) y.server.hosts) n) _ y' e1 in
          settle-IsSafe (record y { requests = r' }) y' fuel p out
            (record {
              requests_IsValid = v';
              inbox_IsValid = s.inbox_IsValid;
              outbox_IsValid = s.outbox_IsValid;
              owned = o;
            })
            loose e2
    ]

pub bundle_round-IsSafe :
    (y y' : System) (fuel : ℕ) → IsSafe y → bundle_round (suc fuel) y ≡ some y' → IsSafe y'
unfolding bundle_round
bundle_round-IsSafe y y' fuel s e =
    let w = y.server.pending in
    elim (dequeue-cases s.outbox_IsValid fuel) [
      | inl (r', run, v', same) ↦ subst IsSafe (some-injective _ y' (rw run at e)) (record {
        requests_IsValid = s.requests_IsValid;
        inbox_IsValid = s.inbox_IsValid;
        outbox_IsValid = v';
        owned =
            subst
              (λ q.
                Owned y.server.nodes (places (contents y.requests) (contents y.server.inbox) q w))
              (sym same) s.owned;
      })
      | inr (p, r', run, v', held) ↦
          let (o, loose, alive) =
            taken-Owned s.owned 2 p (in_outbox (headed p (contents r') held)) in
          let (n, at, e1) = >>=-eq-some (y.server.nodes p) _ y' (rw run at e) in
          let (sent, written, e2) = >>=-eq-some (write_back n) _ y' e1 in
          subst IsSafe (some-injective _ y' e2) (record {
            requests_IsValid = s.requests_IsValid;
            inbox_IsValid = s.inbox_IsValid;
            outbox_IsValid = v';
            owned = freed-Owned o p loose;
          })
    ]
