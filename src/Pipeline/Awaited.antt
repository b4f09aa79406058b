-- ===== src/Pipeline/Awaited.antt =====
-- A response from the upstream server, through the ring of the bundle to the client that waits.
use simp_dserver.Prelude.{
  ℕ, suc, ◌+◌, ◌*◌, ◌<◌, ◌≡◌, refl, ap, ◌∙◌, arith, Bool, true, none, some, List, [], ◌∷◌, ◌++◌,
  length, take, drop,
}
use simp_dserver.Prelude.Faults.{◌>>=◌}
use simp_dserver.Message.{Node, header_len}
use simp_dserver.Ring.{success}
use simp_dserver.Ring.Inv.{IsValid, contents}
use simp_dserver.Hashmap.{insert}
use simp_dserver.Hashmap.Memory.{Ptr, Heap, update}
use simp_dserver.Work.Name.{At}
use simp_dserver.Forward.{integer_hash, buff_len, udp_response}
use simp_dserver.Forward.Pending.{Others, parse_response-delivers}
use simp_dserver.Forward.Records.{Answer, IsAnswer, wire, wires, ArePassed}
use simp_dserver.Bundle.Response.{
  IsRequest, marked, record_bytes, question_name, address, write_back_lem,
}
use simp_dserver.Pipeline.{System, respond, bundle_round}
use simp_dserver.Pipeline.Places.{update-here, enqueue-contents, dequeue-contents}

-- The buffer once a datagram is in it.
abbrev pub filled : (stale datagram : List ℕ) → List ℕ
filled stale datagram = take buff_len datagram ++ drop (length (take buff_len datagram)) stale

-- A node waits in the list of its identifier, behind nodes with others, and its request has at
-- least eight bytes and sixteen zero bytes of room behind it. From upstream a datagram arrives that
-- has this identifier and, behind the header and a question as long as the node's, records with
-- data of other lengths than four bytes, at most as many as the buffer has bytes, and then one with
-- an address, which begins inside the datagram. The name of each of these records is a pointer, or
-- it ends with its only zero byte and does not begin like a pointer: labels that end in a pointer
-- are excluded. The insertion of the address into the host map ends, and the ring of the bundle is
-- valid, empty and has room. Then the callback and one round of the bundle end without a fault.
-- They send exactly one message: to the client of the node, the response to its request with that
-- address; nothing is sent upstream. The node has left its list and is freed, the host map is the
-- one with the insertion, the ring is valid and empty again and as large; the other two rings are
-- as they were.
pub awaited-answered :
    (y : System) (p : Ptr) (n : Node) (before after : List Ptr) (rs : List Answer) (r : Answer)
    (others : List ℕ) (i j a b c d k : ℕ) (fresh : Ptr) (stale datagram tail : List ℕ) (ok : Bool)
    (hosts : Heap) (b0 b1 f0 f1 q0 q1 a0 a1 : ℕ) (rest : List ℕ)
    → y.server.pending (integer_hash n.iden) ≡ before ++ (p ∷ after)
    → Others y.server.nodes n.iden before
    → y.server.nodes p ≡ some n
    → n.iden ≡ i + 256 * j
    → IsRequest n b0 b1 f0 f1 q0 q1 a0 a1 rest
    → At (filled stale datagram) 0 (i ∷ j ∷ tail)
    → ArePassed rs
    → IsAnswer r
    → r.rdata ≡ a ∷ b ∷ c ∷ d ∷ []
    → At (filled stale datagram) (header_len + n.host_len + 6) (wires rs ++ (wire r ++ others))
    → header_len + n.host_len + 6 + length (wires rs) < length (take buff_len datagram)
    → length rs < suc (length (filled stale datagram))
    → insert
        (suc k)
        fresh
        (n.shost)
        (n.host_len)
        (a + 256 * b + 65536 * (c + 256 * d))
        (y.server.hosts)
      ≡ some (ok, hosts)
    → IsValid (y.server.outbox)
    → contents (y.server.outbox) ≡ []
    → 0 < y.server.outbox.prod.mask
    → (y' : System) × ((respond (suc k) fresh stale true datagram y >>= bundle_round (suc k))
        ≡ some y')
      × (y'.responses
          ≡ y.responses
            ++ (record {
              fd = n.fd;
              bytes =
                  marked b0 b1 f0 f1 q0 q1 rest
                  ++ record_bytes question_name 1 1 0x0080_0000
                      (address (a + 256 * b + 65536 * (c + 256 * d)));
              peer = n.cliaddr;
              peer_len = n.clilen;
            }
                ∷ []))
      × (y'.server.pending (integer_hash n.iden) ≡ before ++ after)
      × (y'.server.nodes p ≡ none)
      × (y'.server.hosts ≡ hosts)
      × (IsValid (y'.server.outbox) × (contents (y'.server.outbox) ≡ []))
      × (y'.server.outbox.prod.mask ≡ y.server.outbox.prod.mask)
      × ((y'.requests ≡ y.requests) × (y'.server.inbox ≡ y.server.inbox) × (y'.queries ≡ y.queries))
unfolding respond udp_response bundle_round
awaited-answered y p n before after rs r others i j a b c d k fresh stale datagram tail ok hosts b0
      b1 f0 f1 q0 q1 a0 a1 rest listed different at iden request start passed good bytes answers
      inside enough inserted v empty room =
    let ip = a + 256 * b + 65536 * (c + 256 * d) in
    let n' : Node = record n { ipv4 = ip } in
    let (o, put, vo, held, mask_put) = enqueue-contents v k p (omega (arith, ap length empty)) in
    let delivered =
      parse_response-delivers y.server p n before after rs r others i j a b c d (suc k)
        (length (take buff_len datagram)) fresh (filled stale datagram) tail ok hosts success o
        listed different at iden start passed good bytes answers inside enough inserted put in
    let (o', taken, vo', left, mask) =
      dequeue-contents vo k p [] (held ∙ ap (λ q. q ++ (p ∷ [])) empty) in
    let sent = write_back_lem n' b0 b1 f0 f1 q0 q1 a0 a1 rest (record {
      after = request.after;
      buffer = request.buffer;
      data_length = request.data_length;
      flag_bytes = request.flag_bytes;
    }) in
    (
      record y {
        server = record (y.server) {
          nodes = update (update y.server.nodes p (some n')) p none;
          pending = update y.server.pending (integer_hash n.iden) (before ++ after);
          hosts = hosts;
          outbox = o';
        };
        responses =
            y.responses
            ++ (record {
              fd = n.fd;
              bytes =
                  marked b0 b1 f0 f1 q0 q1 rest
                  ++ record_bytes question_name 1 1 0x0080_0000 (address ip);
              peer = n.cliaddr;
              peer_len = n.clilen;
            }
                ∷ []);
      },
      rw (delivered, taken, update-here y.server.nodes p (some n'), sent) refl,
      refl,
      update-here y.server.pending (integer_hash n.iden) (before ++ after),
      update-here (update y.server.nodes p (some n')) p none,
      refl,
      (vo', left),
      mask ∙ mask_put,
      (refl, refl, refl),
    )
