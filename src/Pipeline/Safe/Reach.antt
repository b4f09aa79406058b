-- ===== src/Pipeline/Safe/Reach.antt =====
-- What holds in every order of the steps.
use simp_dserver.Prelude.{one_if, ℕ, zero, suc, ◌<◌, ◌≡◌, ◌≢◌, refl, ap, arith, none, List, []}
use simp_dserver.Ring.Inv.{IsValid, contents}
use simp_dserver.Hashmap.Memory.{Ptr}
use simp_dserver.Pipeline.{System}
use simp_dserver.Pipeline.Owned.{count}
use simp_dserver.Pipeline.Safe.{
  IsSafe, places, Step, receives, works, forwards, responds, answers, Reaches, stop, next,
}
use simp_dserver.Pipeline.Safe.Rounds.{receive-IsSafe, work_round-IsSafe, bundle_round-IsSafe}
use simp_dserver.Pipeline.Safe.Upstream.{forward_round-IsSafe, respond-IsSafe}

-- Where the parts start: the rings are valid and empty, and no node waits.
pub record IsStart (y : System) : Type 0 where
  pub valid : IsValid y.requests × IsValid y.server.inbox × IsValid y.server.outbox
  pub empty :
      (contents y.requests ≡ []) × (contents y.server.inbox ≡ []) × (contents y.server.outbox ≡ [])
  pub none_waits : (h : ℕ) → y.server.pending h ≡ []

start-IsSafe : (y : System) → IsStart y → IsSafe y
start-IsSafe y s = record {
  requests_IsValid = s.valid.0;
  inbox_IsValid = s.valid.1;
  outbox_IsValid = s.valid.2;
  owned = record { place = λ p. 0; freed = λ p e. refl; counts = counts };
}
  where
    counts :
        (i : ℕ) (p : Ptr)
        → count p (
            places
              (contents y.requests)
              (contents y.server.inbox)
              (contents y.server.outbox)
              y.server.pending
              i)
          ≡ one_if 0 (suc i)
    counts zero p = ap (count p) s.empty.0
    counts (suc zero) p = ap (count p) s.empty.1
    counts (suc (suc zero)) p = ap (count p) s.empty.2
    counts (suc (suc (suc h))) p = let empty = ap (count p) (s.none_waits h) in ground arith

-- Every step that ends without a fault keeps the rings valid, and every node in one place at most, where it is
-- allocated: datagrams from clients and from upstream, and the rounds of the three threads.
pub Step-IsSafe : {y y' : System} → Step y y' → IsSafe y → IsSafe y'
Step-IsSafe {y} {y'} (receives fuel fresh fd readable arrived unused e) s =
    receive-IsSafe y y' fuel fresh fd readable arrived s unused e
Step-IsSafe {y} {y'} (works fuel e) s = work_round-IsSafe y y' fuel s e
Step-IsSafe {y} {y'} (forwards fuel e) s = forward_round-IsSafe y y' fuel s e
Step-IsSafe {y} {y'} (responds fuel fresh stale readable datagram e) s =
    respond-IsSafe y y' fuel fresh stale readable datagram s e
Step-IsSafe {y} {y'} (answers fuel e) s = bundle_round-IsSafe y y' fuel s e

Reaches-IsSafe : {y y' : System} → Reaches y y' → IsSafe y → IsSafe y'
Reaches-IsSafe stop s = s
Reaches-IsSafe (next before step) s = Step-IsSafe step (Reaches-IsSafe before s)

-- The places of a system, by number.
abbrev pub at : System → ℕ → List Ptr
at y =
    places (contents y.requests) (contents y.server.inbox) (contents y.server.outbox)
      y.server.pending

-- From the start, and after any sequence of callbacks and rounds in any order, each of which ends
-- without a fault and gets memory that is not in use where it allocates a node, a node that is in a ring
-- or in a list of waiting nodes is there once, is in no other of them, and is not freed. Among the steps
-- that are excluded as faults is a response from upstream whose identifier no node waits for.
pub Reaches-owned :
    {start y : System}
    → IsStart start
    → Reaches start y
    → (i : ℕ) (p : Ptr) → 0 < count p (at y i)
    → (count p (at y i) ≡ 1) × ((j : ℕ) → 0 < count p (at y j) → j ≡ i) × (y.server.nodes p ≢ none)
Reaches-owned {start} {y} begun steps i p there =
    let s = Reaches-IsSafe steps (start-IsSafe start begun) in
    let o = s.owned in
    (
      let c = o.counts i p in ground arith,
      λ j also. let c = o.counts i p in let d = o.counts j p in ground arith,
      λ freed. let c = o.counts i p in let d = o.freed p freed in ground arith,
    )
