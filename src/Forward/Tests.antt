-- ===== src/Forward/Tests.antt =====
-- A response for a node that waits, and the theorems at it.
use simp_dserver.Prelude.{
  ℕ, ◌+◌, ◌*◌, ◌≡◌, refl, sym, inl, inr, Bool, true, Option, none, some, List, [], ◌∷◌, ◌++◌, arith,
  replicate, ◌==◌, if◌then◌else◌,
}
use simp_dserver.Message.{Node, load16}
use simp_dserver.Ring.{Ring, Status, success, enqueue}
use simp_dserver.Hashmap.{insert}
use simp_dserver.Hashmap.Memory.{
  Ptr, null, Heap, update, load, store, set_parent, set_color, set_left, set_right, get_root,
  set_root, is_red,
}
use simp_dserver.Hashmap.Rbtree.{insert_color}
use simp_dserver.Hashmap.Text.{hash, strcmp}
use simp_dserver.Work.Name.{At}
use simp_dserver.Forward.{gethostaddr, Server, integer_hash, is_deflate, scan, parse_response}
use simp_dserver.Forward.Records.{Answer, IsAnswer, IsName, pointer, wire, wires}
use simp_dserver.Forward.Filed.{IsFiled, equal_cases, gethostaddr-IsFiled, parse_response-IsFiled}
use simp_dserver.Forward.Scan.{scan-first_address, scan-no_address}
use simp_dserver.Forward.Pending.{Others, parse_response-delivers}

-- The host "a.b", asked with the identifier 0x3412, and a node that waits for another.
abbrev asked : Node
asked = record {
  fd = 5;
  prot = 0;
  cliaddr = 77;
  clilen = 16;
  datalen = 21;
  request = replicate 40 0;
  phost = some 12;
  shost = b'a' ∷ b'.' ∷ b'b' ∷ [];
  host_len = 3;
  iden = 0x3412;
  flags = some 2;
  ipv4 = 0;
}

abbrev other : Node
other = record asked { iden = 7 }

abbrev ring : Ring
ring = record {
  prod = record { watermark = 4; size = 4; mask = 3; head = 0; tail = 0 };
  cons = record { size = 4; mask = 3; head = 0; tail = 0 };
  slots = 0 ∷ 0 ∷ 0 ∷ 0 ∷ [];
}

abbrev server : Server
server = record {
  nodes = λ p. if p == 4 then some other else if p == 5 then some asked else none;
  pending = λ h. 4 ∷ 5 ∷ [];
  inbox = ring;
  hosts = record { cells = λ p. none; roots = λ h. null };
  outbox = ring;
}

-- A name by a pointer to the question.
abbrev alias_record : Answer
alias_record = record {
  name = 0xc0 ∷ 12 ∷ [];
  fixed = 0 ∷ 5 ∷ 0 ∷ 1 ∷ 0 ∷ 0 ∷ 0 ∷ 60 ∷ [];
  rdata = 1 ∷ b'c' ∷ 0xc0 ∷ 12 ∷ 0 ∷ [];
}

abbrev host_record : Answer
host_record = record {
  name = 0xc0 ∷ 12 ∷ [];
  fixed = 0 ∷ 1 ∷ 0 ∷ 1 ∷ 0 ∷ 0 ∷ 0 ∷ 60 ∷ [];
  rdata = 10 ∷ 0 ∷ 0 ∷ 9 ∷ [];
}

abbrev question : List ℕ
question = 0x12 ∷ 0x34 ∷ replicate 19 1

abbrev response : List ℕ
response = question ++ (wires (alias_record ∷ []) ++ (wire host_record ++ (0 ∷ [])))

pointer-IsName : IsName (0xc0 ∷ 12 ∷ [])
unfolding is_deflate
pointer-IsName = pointer 0xc0 12 refl

alias_record-IsAnswer : IsAnswer alias_record
alias_record-IsAnswer = (pointer-IsName, refl, omega arith)

host_record-IsAnswer : IsAnswer host_record
host_record-IsAnswer = (pointer-IsName, refl, omega arith)

answers_at : At response 21 (wires (alias_record ∷ []) ++ (wire host_record ++ (0 ∷ [])))
answers_at = record { before = question; after = []; split = refl; length_before = refl }

scan-first_address_example :
    scan 2 response 54 21 ≡ some (some (10 + 256 * 0 + 65536 * (0 + 256 * 9)))
scan-first_address_example =
    scan-first_address (alias_record ∷ []) host_record (0 ∷ []) 10 0 0 9 2 54 response 21
      (alias_record-IsAnswer, omega arith, tt) host_record-IsAnswer refl answers_at (omega arith)
      (omega arith)

scan-no_address_example : scan 2 response 38 21 ≡ some none
scan-no_address_example =
    scan-no_address (alias_record ∷ []) (wire host_record ++ (0 ∷ [])) 2 response 21
      (alias_record-IsAnswer, omega arith, tt) answers_at (omega arith)

hosts_of : Option (Bool × Heap) → Heap
hosts_of none = server.hosts
hosts_of (some (ok, m)) = m

ring_of : Option (Status × Ring) → Ring
ring_of none = ring
ring_of (some (status, r)) = r

abbrev hosts_after : Heap
hosts_after =
    hosts_of (insert 9 9 (asked.shost) 3 (10 + 256 * 0 + 65536 * (0 + 256 * 9)) (server.hosts))

abbrev outbox_after : Ring
outbox_after = ring_of (enqueue 9 ring 5)

inserted :
    insert 9 9 (asked.shost) 3 (10 + 256 * 0 + 65536 * (0 + 256 * 9)) (server.hosts)
    ≡ some (true, hosts_after)
unfolding hosts_of insert hash strcmp insert_color load store set_parent set_color set_left
    set_right get_root set_root is_red
inserted = refl

queued : enqueue 9 ring 5 ≡ some (success, outbox_after)
unfolding ring_of enqueue
queued = refl

parse_response-delivers_example :
    parse_response 9 9 response 54 server
    ≡ some (record server {
      nodes =
          update
            (server.nodes)
            5
            (some (record asked { ipv4 = 10 + 256 * 0 + 65536 * (0 + 256 * 9) }));
      pending = update (server.pending) (integer_hash 0x3412) (4 ∷ []);
      hosts = hosts_after;
      outbox = outbox_after;
    })
parse_response-delivers_example =
    parse_response-delivers server 5 asked (4 ∷ []) [] (alias_record ∷ []) host_record (0 ∷ []) 0x12
      0x34 10 0 0 9 9 54 9 response
      (replicate 19 1 ++ (wires (alias_record ∷ []) ++ (wire host_record ++ (0 ∷ [])))) true
      hosts_after success outbox_after refl ((other, refl, omega arith), tt) refl refl
      (record { before = []; after = []; split = refl; length_before = refl })
      (alias_record-IsAnswer, omega arith, tt) host_record-IsAnswer refl answers_at (omega arith)
      (omega arith) inserted queued

abbrev idle : Server
idle = record server { pending = λ h. [] }

gethostaddr-IsFiled_example :
    (s' : Server) × (sent : List ℕ) × (gethostaddr 5 idle ≡ some (s', sent))
    × IsFiled s'
    × (s'.pending (integer_hash 0x3412) ≡ [] ++ (5 ∷ []))
gethostaddr-IsFiled_example = gethostaddr-IsFiled idle 5 asked 2 (λ h. tt) refl refl (omega arith)

abbrev waiting : Server
waiting = record server { pending = λ h. if h == integer_hash 0x3412 then 5 ∷ [] else [] }

waiting-IsFiled : IsFiled waiting
waiting-IsFiled h = elim (equal_cases h (integer_hash 0x3412)) [
  | inl (test, same) ↦ rw test ((asked, refl, sym same), tt)
  | inr (test, ne) ↦ rw test tt
]

abbrev answered : Server
answered = record waiting {
  nodes =
      update (waiting.nodes) 5
        (some (record asked { ipv4 = 10 + 256 * 0 + 65536 * (0 + 256 * 9) }));
  pending = update (waiting.pending) (integer_hash 0x3412) [];
  hosts = hosts_after;
  outbox = outbox_after;
}

handled : parse_response 9 9 response 54 waiting ≡ some answered
handled =
    parse_response-delivers waiting 5 asked [] [] (alias_record ∷ []) host_record (0 ∷ []) 0x12 0x34
      10 0 0 9 9 54 9 response
      (replicate 19 1 ++ (wires (alias_record ∷ []) ++ (wire host_record ++ (0 ∷ [])))) true
      hosts_after success outbox_after (ground arith) tt refl refl
      (record { before = []; after = []; split = refl; length_before = refl })
      (alias_record-IsAnswer, omega arith, tt) host_record-IsAnswer refl answers_at (omega arith)
      (omega arith) inserted queued

parse_response-IsFiled_example :
    IsFiled answered
    × (iden : ℕ) × (p : Ptr) × (n : Node) × (before : List Ptr) × (after : List Ptr) × (load16
          response 0
        ≡ some iden)
    × (waiting.nodes p ≡ some n)
    × (n.iden ≡ iden)
    × Others waiting.nodes iden before
    × (waiting.pending (integer_hash iden) ≡ before ++ (p ∷ after))
    × (answered.pending ≡ update waiting.pending (integer_hash iden) (before ++ after))
parse_response-IsFiled_example =
    parse_response-IsFiled 9 9 response 54 waiting answered waiting-IsFiled handled
