-- ===== src/Pipeline/Tests.antt =====
-- A request for the host `a`, which the map knows, through the server; and the theorems there.
use simp_dserver.Prelude.{
  ℕ, ◌<◌, ◌≡◌, ◌≢◌, refl, arith, true, none, some, List, [], ◌∷◌, ◌++◌, replicate, ◌==◌,
  if◌then◌else◌,
}
use simp_dserver.Prelude.Faults.{◌>>=◌}
use simp_dserver.Message.{Node, load_be16}
use simp_dserver.Ring.{Ring, enqueue}
use simp_dserver.Ring.Inv.{IsValid, contents}
use simp_dserver.Hashmap.{lookup, new_cell}
use simp_dserver.Hashmap.Text.{hash, strcmp}
use simp_dserver.Hashmap.Memory.{Heap, load, get_root}
use simp_dserver.Work.Parser.{IsQuery}
use simp_dserver.Bundle.{Datagram, Sent, received, udp_cb}
use simp_dserver.Bundle.Response.{marked, record_bytes, question_name, address}
use simp_dserver.Pipeline.{System, receive, work_round, bundle_round}
use simp_dserver.Pipeline.Answer.{known_host-answered}
use simp_dserver.Pipeline.Owned.{count}
use simp_dserver.Pipeline.Safe.{Step, receives, stop, next}
use simp_dserver.Pipeline.Safe.Reach.{at, Reaches-owned}

-- Four slots, none filled.
abbrev ring : Ring
ring = record {
  prod = record { watermark = 4; size = 4; mask = 3; head = 0; tail = 0 };
  cons = record { size = 4; mask = 3; head = 0; tail = 0 };
  slots = 0 ∷ 0 ∷ 0 ∷ 0 ∷ [];
}

ring-IsValid : IsValid ring
ring-IsValid = record {
  exponent = 2;
  exponent_le = omega arith;
  power = refl;
  same_mask = refl;
  same_size = (refl, refl);
  storage = refl;
  prod_lt = omega arith;
  cons_lt = omega arith;
  prod_idle = refl;
  cons_idle = refl;
  fits = omega arith;
}

-- The bucket of the host has one node.
abbrev hosts : Heap
hosts = record {
  cells = λ p. if p == 8 then some (new_cell (b'a' ∷ []) 1 0x0100007f) else none;
  roots = λ h. 8;
}

abbrev idle : System
idle = record {
  server = record {
    nodes = λ p. none;
    pending = λ h. [];
    inbox = ring;
    hosts = hosts;
    outbox = ring;
  };
  requests = ring;
  responses = [];
  queries = [];
}

-- A question for the name `a`, behind the first eight bytes.
abbrev rest : List ℕ
rest = 0 ∷ 0 ∷ 0 ∷ 0 ∷ 1 ∷ b'a' ∷ 0 ∷ 0 ∷ 1 ∷ 0 ∷ 1 ∷ []

found : lookup 5 (b'a' ∷ []) 1 hosts ≡ some (0x0100007f, hosts)
unfolding lookup new_cell hash strcmp get_root load
found = refl

abbrev question : Datagram
question = record {
  bytes = 0x12 ∷ 0x34 ∷ 1 ∷ 0 ∷ 0 ∷ 1 ∷ 0 ∷ 0 ∷ rest;
  sender = 77;
  sender_len = 16;
}

query : IsQuery (received question.bytes) 0x3412 (b'a' ∷ []) [] 0 1
unfolding load_be16 received
query = record {
  qdcount = refl;
  ancount = refl;
  nscount = refl;
  additional = 0;
  arcount = refl;
  arcount_le = omega arith;
  ident = refl;
  labels = omega arith;
  type_hi = omega arith;
  type_lo = omega arith;
  rest = 0 ∷ 1 ∷ [];
  question = record {
    before = 0x12 ∷ 0x34 ∷ 1 ∷ 0 ∷ 0 ∷ 1 ∷ 0 ∷ 0 ∷ 0 ∷ 0 ∷ 0 ∷ 0 ∷ [];
    after = replicate 2029 0;
    split = refl;
    length_before = refl;
  };
}

abbrev response : Sent
response = record {
  fd = 5;
  bytes =
      marked 0x12 0x34 1 0 0 1 rest
      ++ record_bytes question_name 1 1 0x0080_0000 (address 0x0100007f);
  peer = 77;
  peer_len = 16;
}

known_host-answered_example :
    (y' : System) × ((receive 1 9 5 true (some question) idle >>= λ y1.
    work_round 5 y1 >>= bundle_round 1)
      ≡ some y')
    × (y'.responses ≡ response ∷ [])
    × (IsValid (y'.requests) × (contents (y'.requests) ≡ []))
    × (IsValid (y'.server.outbox) × (contents (y'.server.outbox) ≡ []))
    × (y'.server.nodes 9 ≡ none)
    × (y'.server.inbox ≡ ring)
    × (y'.queries ≡ [])
known_host-answered_example =
    known_host-answered 0 4 5 77 16 0x3412 0x12 0x34 1 0 0 1 0 0 rest (b'a' ∷ []) [] 9 0x0100007f
      idle (omega arith) ring-IsValid refl (omega arith) ring-IsValid refl (omega arith)
      (omega arith) (omega arith) (omega arith) query (omega arith) found (omega arith)

abbrev asked_node : Node
asked_node = record {
  fd = 5;
  prot = 0;
  cliaddr = 77;
  clilen = 16;
  datalen = 19;
  request = (0x12 ∷ 0x34 ∷ 1 ∷ 0 ∷ 0 ∷ 1 ∷ 0 ∷ 0 ∷ rest) ++ replicate 2029 0;
  phost = none;
  shost = [];
  host_len = 0;
  iden = 0;
  flags = none;
  ipv4 = 0;
}

-- The server right after the callback.
abbrev asked : System
asked = record idle {
  requests = record ring {
    prod = record { watermark = 4; size = 4; mask = 3; head = 1; tail = 1 };
    slots = 9 ∷ 0 ∷ 0 ∷ 0 ∷ [];
  };
  server = record (idle.server) { nodes = λ q. if q == 9 then some asked_node else none };
}

asked-Step : Step idle asked
unfolding receive udp_cb enqueue received
asked-Step = receives 0 9 5 true (some question) refl refl

Reaches-owned_example :
    (count 9 (at asked 0) ≡ 1)
    × ((j : ℕ) → 0 < count 9 (at asked j) → j ≡ 0)
    × (asked.server.nodes 9 ≢ none)
Reaches-owned_example =
    Reaches-owned
      (record {
        valid = (ring-IsValid, ring-IsValid, ring-IsValid);
        empty = (refl, refl, refl);
        none_waits = λ h. refl;
      })
      (next stop asked-Step) 0 9 (omega arith)
