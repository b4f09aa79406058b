-- ===== src/Pipeline.antt =====
-- net_bundle_core.c, net_work.c and net_forward.c: the callback of the socket and the rounds of the
-- three threads, on the nodes and rings that they share.
pub mod Answer
pub mod Awaited
pub mod Cached
pub mod Forwarded
pub mod Owned
pub mod Places
pub mod Safe
mod Tests
mod UpstreamTests
use simp_dserver.Prelude.{
  ℕ, Bool, true, false, Option, none, some, List, [], ◌∷◌, ◌++◌, ◌==◌, if◌then◌else◌,
}
use simp_dserver.Prelude.Faults.{◌>>=◌, pure}
use simp_dserver.Message.{Node}
use simp_dserver.Ring.{Ring, Status, success, failure, Dequeued, enqueue, dequeue}
use simp_dserver.Hashmap.{lookup}
use simp_dserver.Hashmap.Memory.{Ptr, null, Heap, update}
use simp_dserver.Work.{Outcome, rejected, forwarded, answered, parser}
use simp_dserver.Forward.{Server, gethostaddr, udp_response}
use simp_dserver.Bundle.{Datagram, Sent, udp_cb, write_back}

-- What the threads share: the nodes, the host map, and the rings and lists of the forwarding part
-- and of the bundle (`server`), the ring of the work part, and what was sent.
pub record System : Type 0 where
  pub server : Server
  pub requests : Ring
  pub responses : List Sent
  pub queries : List (List ℕ)

-- The node at a pointer, `none` once it is freed.
abbrev pub set_node : Ptr → Option Node → System → System
set_node p n y = record y { server = record (y.server) { nodes = update y.server.nodes p n } }

-- `udp_cb`: `fresh` is what `malloc` returns, which is not looked at. The result of the enqueue is
-- not looked at either; a node that is not queued stays allocated.
pub receive : ℕ → Ptr → ℕ → Bool → Option Datagram → System → Option System
receive fuel fresh fd readable arrived y =
    if fresh == null then none else elim (udp_cb fd readable arrived) [
      | none ↦ some y
      | some n ↦ (do
        (queued, requests) ← enqueue fuel y.requests fresh
        pure (record (set_node fresh (some n) y) { requests = requests }))
    ]

-- `net_hashmap_core_module.search` on the host map.
pub found_in : ℕ → Heap → List ℕ → ℕ → Option ℕ
found_in fuel hosts host len = elim (lookup fuel host len hosts) [
  | none ↦ none
  | some (ip, m) ↦ some ip
]

-- What the parser leaves: the node, and its pointer in one of the rings or in none.
pub settle : ℕ → Ptr → Outcome → System → Option System
settle fuel p (rejected n) y = some (set_node p (some n) y)
settle fuel p (forwarded n) y = do
  (queued, inbox) ← enqueue fuel y.server.inbox p
  let y' = set_node p (some n) y
  pure (record y' { server = record (y'.server) { inbox = inbox } })
settle fuel p (answered n) y = do
  (queued, outbox) ← enqueue fuel y.server.outbox p
  let y' = set_node p (some n) y
  pure (record y' { server = record (y'.server) { outbox = outbox } })

-- A round of `net_work_module_inside_loop`.
pub work_round : ℕ → System → Option System
unfolding settle found_in
work_round fuel y = do
  d ← dequeue fuel y.requests
  let y' : System = record y { requests = d.ring }
  elim d.status [
    | failure ↦ some y'
    | success ↦ (do
      p ← d.item
      n ← y'.server.nodes p
      out ← parser (found_in fuel y'.server.hosts) n
      settle fuel p out y')
  ]

-- A round of `net_forward_module_inside_loop`, up to the event loop, and a response from upstream.
pub forward_round : ℕ → System → Option System
forward_round fuel y = do
  d ← dequeue fuel y.server.inbox
  let y' : System = record y { server = record (y.server) { inbox = d.ring } }
  elim d.status [
    | failure ↦ some y'
    | success ↦ (do
      p ← d.item
      (server, query) ← gethostaddr p y'.server
      pure (record y' { server = server; queries = y'.queries ++ (query ∷ []) }))
  ]

pub respond : ℕ → Ptr → List ℕ → Bool → List ℕ → System → Option System
respond fuel fresh stale readable datagram y = do
  server ← udp_response fuel fresh stale readable datagram y.server
  pure (record y { server = server })

-- A round of `net_bundle_core_module_inside_loop`: the node is freed once it is answered.
pub bundle_round : ℕ → System → Option System
bundle_round fuel y = do
  d ← dequeue fuel y.server.outbox
  let y' : System = record y { server = record (y.server) { outbox = d.ring } }
  elim d.status [
    | failure ↦ some y'
    | success ↦ (do
      p ← d.item
      n ← y'.server.nodes p
      sent ← write_back n
      pure (record (set_node p none y') { responses = y'.responses ++ (sent ∷ []) }))
  ]
