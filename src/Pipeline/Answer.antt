-- ===== src/Pipeline/Answer.antt =====
-- A request for a host that the map knows, from the socket through both rings back to the socket.
use simp_dserver.Prelude.{
  ℕ, zero, suc, ◌+◌, ◌-◌, ◌≤◌, ◌<◌, ◌≡◌, ◌≢◌, refl, ap, ◌∙◌, arith, true, none, some, List, [], ◌∷◌,
  ◌++◌, length, length-append, length-replicate, replicate, take,
}
use simp_dserver.Prelude.Faults.{◌>>=◌}
use simp_dserver.Message.{Node, host_data_len, header_len}
use simp_dserver.Ring.{Ring}
use simp_dserver.Ring.Inv.{IsValid, contents}
use simp_dserver.Hashmap.{lookup}
use simp_dserver.Hashmap.Memory.{Ptr, null, Heap, update}
use simp_dserver.Hashmap.Search.{not_null}
use simp_dserver.Work.{answered, parser}
use simp_dserver.Work.Name.{dotted}
use simp_dserver.Work.Parser.{IsQuery, parser-routes, route-answered}
use simp_dserver.Bundle.{Datagram, Sent, udp_cb, received, blank, write_back}
use simp_dserver.Bundle.Response.{marked, record_bytes, question_name, address, write_back_lem}
use simp_dserver.Pipeline.{System, set_node, receive, found_in, settle, work_round, bundle_round}
use simp_dserver.Pipeline.Places.{update-here, enqueue-contents, dequeue-contents}

take-all : (xs : List ℕ) → take (length xs) xs ≡ xs
take-all [] = refl
take-all (x ∷ xs) = ap (λ ys. x ∷ ys) (take-all xs)

replicate-add : (m n : ℕ) → replicate {A = ℕ} (m + n) 0 ≡ replicate m 0 ++ replicate n 0
replicate-add zero n = ap (λ k. replicate k 0) {y = n} (omega arith)
replicate-add (suc m) n =
    ap (λ k. replicate k 0) {y = suc (m + n)} (omega arith) ∙ ap (λ xs. 0 ∷ xs) (replicate-add m n)

-- A datagram that leaves sixteen bytes of the buffer free stands in it before zeros.
pub received-padded :
    (bytes : List ℕ)
    → length bytes ≤ 2032
    → received bytes ≡ bytes ++ (replicate 16 0 ++ replicate (2032 - length bytes) 0)
unfolding received
received-padded bytes fits =
    let padded = bytes ++ (replicate 16 0 ++ replicate (2032 - length bytes) 0) in
    let same : bytes ++ replicate (2048 - length bytes) 0 ≡ padded =
      ap (λ n. bytes ++ replicate n 0) (omega arith)
      ∙ ap (λ xs. bytes ++ xs) (replicate-add 16 (2032 - length bytes)) in
    let long : 2048 ≡ length padded = omega (
      arith,
      length-append bytes (replicate 16 0 ++ replicate (2032 - length bytes) 0),
      length-append (replicate {A = ℕ} 16 0) (replicate (2032 - length bytes) 0),
      length-replicate {A = ℕ} (2032 - length bytes) 0,
    ) in
    ap (λ xs. take 2048 xs) same ∙ ap (λ n. take n padded) long ∙ take-all padded

module _ (f g fd sender sender_len iden : ℕ) (b0 b1 f0 f1 q0 q1 a0 a1 : ℕ) (rest : List ℕ)
    (l : List ℕ) (ls : List (List ℕ)) (p : Ptr) (ip : ℕ) where
  abbrev bytes : List ℕ
  bytes = b0 ∷ b1 ∷ f0 ∷ f1 ∷ q0 ∷ q1 ∷ a0 ∷ a1 ∷ rest

  abbrev pub arrived : Datagram
  arrived = record {
    bytes = b0 ∷ b1 ∷ f0 ∷ f1 ∷ q0 ∷ q1 ∷ a0 ∷ a1 ∷ rest;
    sender = sender;
    sender_len = sender_len;
  }

  -- The node as `udp_cb` leaves it, and as the parser does.
  abbrev pub queued : Node
  queued = record (blank fd) {
    cliaddr = sender;
    clilen = sender_len;
    datalen = length bytes;
    request = received bytes;
  }

  abbrev pub parsed : Node
  parsed = record queued {
    iden = iden;
    flags = some 2;
    shost = dotted (l ∷ ls);
    phost = some header_len;
    host_len = length (dotted (l ∷ ls));
    ipv4 = ip;
  }

  -- What the client is sent.
  abbrev pub reply : Sent
  reply = record {
    fd = fd;
    bytes =
        marked b0 b1 f0 f1 q0 q1 rest ++ record_bytes question_name 1 1 0x0080_0000 (address ip);
    peer = sender;
    peer_len = sender_len;
  }

  udp_cb-queued : udp_cb fd true (some arrived) ≡ some queued
  unfolding udp_cb
  udp_cb-queued = ground arith

  pub receive-queued :
      (y : System)
      → p ≢ null
      → IsValid (y.requests)
      → length (contents (y.requests)) < y.requests.prod.mask
      → (r : Ring) × (receive (suc f) p fd true (some arrived) y
          ≡ some (record (set_node p (some queued) y) { requests = r }))
        × IsValid r
        × (contents r ≡ contents (y.requests) ++ (p ∷ []))
  unfolding receive
  receive-queued y ne v room =
      let (r, run, v', held, mask_put) = enqueue-contents v f p room in
      (r, rw (not_null p ne, udp_cb-queued, run) refl, v', held)

  parser-parsed :
      (m : Heap)
      → IsQuery (received bytes) iden l ls 0 1
      → length (dotted (l ∷ ls)) ≤ host_data_len
      → lookup (suc g) (dotted (l ∷ ls)) (length (dotted (l ∷ ls))) m ≡ some (ip, m)
      → ip ≢ 0
      → parser (found_in (suc g) m) queued ≡ some (answered parsed)
  unfolding found_in
  parser-parsed m query name_fits found ne =
      parser-routes (found_in (suc g) m) queued iden l ls 0 1 query name_fits
      ∙ route-answered (found_in (suc g) m) _ ip (rw (found_in, found) refl) ne

  work_round-answered :
      (x : System) (q : List Ptr)
      → IsValid (x.requests)
      → contents (x.requests) ≡ p ∷ q
      → x.server.nodes p ≡ some queued
      → IsValid (x.server.outbox)
      → length (contents (x.server.outbox)) < x.server.outbox.prod.mask
      → IsQuery (received bytes) iden l ls 0 1
      → length (dotted (l ∷ ls)) ≤ host_data_len
      → lookup (suc g) (dotted (l ∷ ls)) (length (dotted (l ∷ ls))) (x.server.hosts)
        ≡ some (ip, x.server.hosts)
      → ip ≢ 0
      → (r : Ring) × (o : Ring) × (work_round (suc g) x
          ≡ some (record x {
            requests = r;
            server = record (x.server) {
              nodes = update x.server.nodes p (some parsed);
              outbox = o;
            };
          }))
        × (IsValid r × (contents r ≡ q))
        × (IsValid o × (contents o ≡ contents (x.server.outbox) ++ (p ∷ [])))
  unfolding work_round settle
  work_round-answered x q v held at vo room query name_fits found ne =
      let (r, taken, vr, left, mask) = dequeue-contents v g p q held in
      let (o, put, vo', added, mask_put) = enqueue-contents vo g p room in
      (
        r,
        o,
        rw (taken, at, parser-parsed (x.server.hosts) query name_fits found ne, put) refl,
        (vr, left),
        (vo', added),
      )

  pub write_back-reply : length bytes ≤ 2032 → f0 < 256 → f1 < 256 → write_back parsed ≡ some reply
  unfolding blank
  write_back-reply fits h0 h1 = write_back_lem parsed b0 b1 f0 f1 q0 q1 a0 a1 rest (record {
    after = replicate (2032 - length bytes) 0;
    buffer = received-padded bytes fits;
    data_length = omega arith;
    flag_bytes = (h0, h1);
  })

  pub bundle_round-reply :
      (x : System) (q : List Ptr)
      → IsValid (x.server.outbox)
      → contents (x.server.outbox) ≡ p ∷ q
      → x.server.nodes p ≡ some parsed
      → length bytes ≤ 2032
      → f0 < 256
      → f1 < 256
      → (o : Ring) × (bundle_round (suc f) x
          ≡ some (record x {
            server = record (x.server) { nodes = update x.server.nodes p none; outbox = o };
            responses = x.responses ++ (reply ∷ []);
          }))
        × IsValid o
        × (contents o ≡ q)
  unfolding bundle_round
  bundle_round-reply x q v held at fits h0 h1 =
      let (o, taken, vo, left, mask) = dequeue-contents v f p q held in
      (o, rw (taken, at, write_back-reply fits h0 h1) refl, vo, left)

  -- Over a server whose ring of requests and whose ring of the bundle are valid, empty and have
  -- room, a datagram of at least eight bytes arrives that leaves sixteen bytes of the buffer free,
  -- and there is memory for its node. It has one question, of type A, no answer and no authority
  -- record, and at most one additional record. The name asked for is made of labels of 1 to 127
  -- bytes and has at most 512 bytes as dotted text, and the search of the host map gives an address
  -- for it that is not 0. Then its callback, one round of the worker and one round of the bundle
  -- end without a fault. They send exactly one message: to the client, on the socket of the
  -- request, the response with the address; nothing is sent upstream. The two rings are valid and
  -- empty again, the node is freed, and the ring to forward is as it was.
  pub known_host-answered :
      (y : System)
      → p ≢ null
      → IsValid (y.requests)
      → contents (y.requests) ≡ []
      → 0 < y.requests.prod.mask
      → IsValid (y.server.outbox)
      → contents (y.server.outbox) ≡ []
      → 0 < y.server.outbox.prod.mask
      → length rest + 8 ≤ 2032
      → f0 < 256
      → f1 < 256
      → IsQuery (received arrived.bytes) iden l ls 0 1
      → length (dotted (l ∷ ls)) ≤ host_data_len
      → lookup (suc g) (dotted (l ∷ ls)) (length (dotted (l ∷ ls))) (y.server.hosts)
        ≡ some (ip, y.server.hosts)
      → ip ≢ 0
      → (y' : System) × ((receive (suc f) p fd true (some arrived) y >>= λ y1.
            work_round (suc g) y1 >>= bundle_round (suc f))
          ≡ some y')
        × (y'.responses ≡ y.responses ++ (reply ∷ []))
        × (IsValid (y'.requests) × (contents (y'.requests) ≡ []))
        × (IsValid (y'.server.outbox) × (contents (y'.server.outbox) ≡ []))
        × (y'.server.nodes p ≡ none)
        × (y'.server.inbox ≡ y.server.inbox)
        × (y'.queries ≡ y.queries)
  known_host-answered y ne v empty room vo empty_out room_out fits h0 h1 query name_fits found
        known =
      let (r1, received1, v1, held1) = receive-queued y ne v (omega (arith, ap length empty)) in
      let y1 : System = record (set_node p (some queued) y) { requests = r1 } in
      let (r2, o2, worked, (v2, held2), (vo2, out2)) =
        work_round-answered y1 [] v1 (held1 ∙ ap (λ q. q ++ (p ∷ [])) empty)
          (update-here y.server.nodes p (some queued)) vo (omega (arith, ap length empty_out)) query
          name_fits found known in
      let y2 : System = record y1 {
        requests = r2;
        server = record (y1.server) { nodes = update y1.server.nodes p (some parsed); outbox = o2 };
      } in
      let (o3, sent, vo3, out3) =
        bundle_round-reply y2 [] vo2 (out2 ∙ ap (λ q. q ++ (p ∷ [])) empty_out)
          (update-here y1.server.nodes p (some parsed)) (omega arith) h0 h1 in
      (
        record y2 {
          server = record (y2.server) { nodes = update y2.server.nodes p none; outbox = o3 };
          responses = y2.responses ++ (reply ∷ []);
        },
        rw (received1, worked, sent) refl,
        refl,
        (v2, held2),
        (vo3, out3),
        update-here y2.server.nodes p none,
        refl,
        refl,
      )
