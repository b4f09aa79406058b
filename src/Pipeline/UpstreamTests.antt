-- ===== src/Pipeline/UpstreamTests.antt =====
-- A request for the host `a`, which the map does not know: the query and the response.
mod Second
use simp_dserver.Prelude.{
  ℕ, ◌+◌, ◌*◌, ◌≡◌, refl, arith, Bool, true, Option, none, some, List, [], ◌∷◌, ◌++◌, replicate,
  ◌==◌, if◌then◌else◌,
}
use simp_dserver.Prelude.Faults.{◌>>=◌}
use simp_dserver.Message.{Node, load_be16}
use simp_dserver.Ring.{Ring}
use simp_dserver.Ring.Inv.{IsValid, contents}
use simp_dserver.Hashmap.{lookup, insert}
use simp_dserver.Hashmap.Rbtree.{insert_color}
use simp_dserver.Hashmap.Text.{hash, strcmp}
use simp_dserver.Hashmap.Memory.{
  Heap, null, load, store, set_parent, set_color, set_left, set_right, get_root, set_root, is_red,
}
use simp_dserver.Work.Parser.{IsQuery}
use simp_dserver.Forward.{integer_hash, is_deflate}
use simp_dserver.Forward.Records.{Answer, IsAnswer, pointer, wire}
use simp_dserver.Bundle.{Datagram, blank, received}
use simp_dserver.Bundle.Response.{IsRequest, marked, record_bytes, question_name, address}
use simp_dserver.Pipeline.{System, receive, work_round, forward_round, respond, bundle_round}
use simp_dserver.Pipeline.Forwarded.{waiting_node, unknown_host-forwarded}
use simp_dserver.Pipeline.Awaited.{awaited-answered}

abbrev ring : Ring
ring = record {
  prod = record { watermark = 4; size = 4; mask = 3; head = 0; tail = 0 };
  cons = record { size = 4; mask = 3; head = 0; tail = 0 };
  slots = 0 ∷ 0 ∷ 0 ∷ 0 ∷ [];
}

ring-IsValid : IsValid ring
ring-IsValid = record {
  exponent = 2;
  exponent_le = omega arith;
  power = refl;
  same_mask = refl;
  same_size = (refl, refl);
  storage = refl;
  prod_lt = omega arith;
  cons_lt = omega arith;
  prod_idle = refl;
  cons_idle = refl;
  fits = omega arith;
}

abbrev no_hosts : Heap
no_hosts = record { cells = λ p. none; roots = λ h. null }

abbrev idle : System
idle = record {
  server = record {
    nodes = λ p. none;
    pending = λ h. [];
    inbox = ring;
    hosts = no_hosts;
    outbox = ring;
  };
  requests = ring;
  responses = [];
  queries = [];
}

-- A question for the name `a`, behind the first eight bytes.
abbrev rest : List ℕ
rest = 0 ∷ 0 ∷ 0 ∷ 0 ∷ 1 ∷ b'a' ∷ 0 ∷ 0 ∷ 1 ∷ 0 ∷ 1 ∷ []

abbrev question : Datagram
question = record {
  bytes = 0x12 ∷ 0x34 ∷ 1 ∷ 0 ∷ 0 ∷ 1 ∷ 0 ∷ 0 ∷ rest;
  sender = 77;
  sender_len = 16;
}

not_found : lookup 5 (b'a' ∷ []) 1 no_hosts ≡ some (0, no_hosts)
unfolding lookup hash get_root
not_found = refl

query : IsQuery (received question.bytes) 0x3412 (b'a' ∷ []) [] 0 1
unfolding load_be16 received
query = record {
  qdcount = refl;
  ancount = refl;
  nscount = refl;
  additional = 0;
  arcount = refl;
  arcount_le = omega arith;
  ident = refl;
  labels = omega arith;
  type_hi = omega arith;
  type_lo = omega arith;
  rest = 0 ∷ 1 ∷ [];
  question = record {
    before = 0x12 ∷ 0x34 ∷ 1 ∷ 0 ∷ 0 ∷ 1 ∷ 0 ∷ 0 ∷ 0 ∷ 0 ∷ 0 ∷ 0 ∷ [];
    after = replicate 2029 0;
    split = refl;
    length_before = refl;
  };
}

abbrev waits : Node
waits = waiting_node 0 4 5 77 16 0x3412 0x12 0x34 1 0 0 1 0 0 rest (b'a' ∷ []) [] 9

unknown_host-forwarded_example :
    (y' : System) × ((receive 1 9 5 true (some question) idle >>= λ y1.
    work_round 5 y1 >>= forward_round 1)
      ≡ some y')
    × (y'.queries ≡ question.bytes ∷ [])
    × ((y'.server.nodes 9 ≡ some waits) × (y'.server.pending (integer_hash 0x3412) ≡ 9 ∷ []))
    × (IsValid (y'.requests) × (contents (y'.requests) ≡ []))
    × (IsValid (y'.server.inbox) × (contents (y'.server.inbox) ≡ []))
    × ((y'.responses ≡ []) × (y'.server.outbox ≡ ring) × (y'.server.hosts ≡ no_hosts))
unknown_host-forwarded_example =
    unknown_host-forwarded 0 4 5 77 16 0x3412 0x12 0x34 1 0 0 1 0 0 rest (b'a' ∷ []) [] 9 idle
      (omega arith) ring-IsValid refl (omega arith) ring-IsValid refl (omega arith) (omega arith)
      (omega arith) (omega arith) query (omega arith) not_found

-- The node waits, and the response has one record.
abbrev waiting : System
waiting = record idle {
  server = record (idle.server) {
    nodes = λ p. if p == 9 then some waits else none;
    pending = λ h. if h == integer_hash 0x3412 then 9 ∷ [] else [];
  };
}

abbrev host_record : Answer
host_record = record {
  name = 0xc0 ∷ 12 ∷ [];
  fixed = 0 ∷ 1 ∷ 0 ∷ 1 ∷ 0 ∷ 0 ∷ 0 ∷ 60 ∷ [];
  rdata = 10 ∷ 0 ∷ 0 ∷ 9 ∷ [];
}

host_record-IsAnswer : IsAnswer host_record
unfolding is_deflate
host_record-IsAnswer = (pointer 0xc0 12 refl, refl, omega arith)

abbrev head : List ℕ
head = 0x12 ∷ 0x34 ∷ 0x81 ∷ 0x80 ∷ 0 ∷ 1 ∷ 0 ∷ 1 ∷ rest

abbrev reply : List ℕ
reply = head ++ wire host_record

abbrev ip : ℕ
ip = 10 + 256 * 0 + 65536 * (0 + 256 * 9)

hosts_of : Option (Bool × Heap) → Heap
hosts_of none = no_hosts
hosts_of (some (ok, m)) = m

abbrev hosts_after : Heap
hosts_after = hosts_of (insert 5 8 (b'a' ∷ []) 1 ip no_hosts)

inserted : insert 5 8 (b'a' ∷ []) 1 ip no_hosts ≡ some (true, hosts_after)
unfolding hosts_of insert hash strcmp insert_color load store set_parent set_color set_left
    set_right get_root set_root is_red
inserted = refl

waits-IsRequest : IsRequest waits 0x12 0x34 1 0 0 1 0 0 rest
waits-IsRequest = record {
  after = replicate 2013 0;
  buffer = refl;
  data_length = refl;
  flag_bytes = omega arith;
}

same_list : waiting.server.pending (integer_hash 0x3412) ≡ 9 ∷ []
same_list = ground arith

awaited-answered_example :
    (y' : System) × ((respond 5 8 [] true reply waiting >>= bundle_round 5) ≡ some y')
    × (y'.responses
        ≡ record {
          fd = 5;
          bytes =
              marked 0x12 0x34 1 0 0 1 rest
              ++ record_bytes question_name 1 1 0x0080_0000 (address ip);
          peer = 77;
          peer_len = 16;
        }
          ∷ [])
    × (y'.server.pending (integer_hash 0x3412) ≡ [])
    × (y'.server.nodes 9 ≡ none)
    × (y'.server.hosts ≡ hosts_after)
    × (IsValid (y'.server.outbox) × (contents (y'.server.outbox) ≡ []))
    × (y'.server.outbox.prod.mask ≡ 3)
    × ((y'.requests ≡ ring) × (y'.server.inbox ≡ ring) × (y'.queries ≡ []))
unfolding blank
awaited-answered_example =
    awaited-answered waiting 9 waits [] [] [] host_record [] 0x12 0x34 10 0 0 9 4 8 [] reply
      (0x81 ∷ 0x80 ∷ 0 ∷ 1 ∷ 0 ∷ 1 ∷ (rest ++ wire host_record)) true hosts_after 0x12 0x34 1 0 0 1
      0 0 rest same_list tt refl refl waits-IsRequest
      (record { before = []; after = []; split = refl; length_before = refl }) tt
      host_record-IsAnswer refl
      (record { before = head; after = []; split = refl; length_before = refl }) (omega arith)
      (omega arith) inserted ring-IsValid refl (omega arith)
