-- ===== src/Pipeline/Cached.antt =====
-- The host map between two requests: the response to the first puts the address there that the second
-- is answered with.
use mathlib.Core.Path.{subst}
use simp_dserver.Prelude.{
  ℕ, suc, ◌+◌, ◌*◌, ◌^◌, ◌≤◌, ◌<◌, ◌≡◌, ◌≢◌, sym, ap, ◌∙◌, arith, true, none, some, List, [], ◌∷◌,
  ◌++◌, append_assoc, length, take,
}
use simp_dserver.Prelude.Faults.{◌>>=◌}
use simp_dserver.Message.{Node, header_len, host_data_len}
use simp_dserver.Ring.Inv.{IsValid, contents}
use simp_dserver.Hashmap.{insert, lookup}
use simp_dserver.Hashmap.Memory.{Ptr, null, Heap}
use simp_dserver.Hashmap.Table.{Host, Table, or_zero, lookup_refines}
use simp_dserver.Hashmap.Table.Add.{insert_refines}
use simp_dserver.Hashmap.Table.Put.{put_new, put_new_self, is_new}
use simp_dserver.Hashmap.Text.Order.{IsDomain}
use simp_dserver.Work.Name.{At, dotted}
use simp_dserver.Work.Parser.{IsQuery}
use simp_dserver.Forward.{integer_hash, buff_len}
use simp_dserver.Forward.Records.{Answer, IsAnswer, wire}
use simp_dserver.Bundle.{Sent, received}
use simp_dserver.Bundle.Response.{IsRequest, marked, record_bytes, question_name, address}
use simp_dserver.Pipeline.{System, receive, work_round, respond, bundle_round}
use simp_dserver.Pipeline.Answer.{arrived, reply, known_host-answered}
use simp_dserver.Pipeline.Awaited.{filled, awaited-answered}

-- What the client of a waiting node is sent.
abbrev pub reply_to : Node → (b0 b1 f0 f1 q0 q1 : ℕ) → (rest : List ℕ) → (ip : ℕ) → Sent
reply_to n b0 b1 f0 f1 q0 q1 rest ip = record {
  fd = n.fd;
  bytes = marked b0 b1 f0 f1 q0 q1 rest ++ record_bytes question_name 1 1 0x0080_0000 (address ip);
  peer = n.cliaddr;
  peer_len = n.clilen;
}

twice : (t : ℕ) → 2 * suc t ≡ suc (2 * t + 1)
twice t = omega arith

-- The address in the four bytes of a record, and the fuel.
abbrev pub given : ℕ → ℕ → ℕ → ℕ → ℕ
given a b c d = a + 256 * b + 65536 * (c + 256 * d)

abbrev pub steps : ℕ → ℕ
steps t = 2 * t + 1

module _ (t : ℕ) {nodes : ℕ → Ptr → ℕ} {count : ℕ} {f : Host} (fresh : Ptr) (d : List ℕ) (ip : ℕ)
    (dom : IsDomain d) where
  -- A search after an insertion of a domain that the map does not have.
  found_again :
      {m : Heap}
      → Table nodes count m f
      → f d ≡ none
      → fresh ≢ null
      → ((h : ℕ) → nodes h fresh ≡ 0)
      → suc (suc count) < 2 ^ suc t
      → (m' : Heap) × (insert (suc (2 * t + 1)) fresh d (length d) ip m ≡ some (true, m'))
        × (lookup (suc (2 * t + 1)) d (length d) m' ≡ some (ip, m'))
  found_again {m} table free ne apart room =
      let a = insert_refines (suc t) fresh d ip m f table ne apart (omega arith) dom in
      (
        a.after,
        ap (λ k. insert k fresh d (length d) ip m) (sym (twice t))
            ∙ a.ends
            ∙ ap (λ o. some (is_new o, a.after)) free,
        ap (λ k. lookup k d (length d) a.after) (sym (twice t))
            ∙ lookup_refines (suc t) a.after (put_new f d ip) d a.table room dom
            ∙ ap (λ o. some (or_zero o, a.after)) (put_new_self f d ip free),
      )

module _ (t : ℕ) {nodes : ℕ → Ptr → ℕ} {count : ℕ} {f : Host} (y : System) (p : Ptr) (n : Node)
    (r : Answer) (others : List ℕ) (i j a b c d : ℕ) (fresh : Ptr) (stale datagram tail : List ℕ)
    (b0 b1 f0 f1 q0 q1 a0 a1 : ℕ) (rest : List ℕ) (fd sender sender_len iden : ℕ)
    (c0 c1 g0 g1 r0 r1 e0 e1 : ℕ) (second : List ℕ) (l : List ℕ) (ls : List (List ℕ))
    (p' : Ptr) where
  -- A node waits, alone in the list of its identifier, for the address of its host; its request has
  -- at least eight bytes and sixteen zero bytes of room behind it. The memory of the host map
  -- stands for a map that does not have the host, no bucket having `2 ^ (t + 1) - 2` nodes, and the
  -- insertion gets a node that is not NULL and in no bucket. A response from upstream has the
  -- identifier and, behind the header and a question as long as the node's, one record with an
  -- address that is not 0; it begins inside the response, and its name is a pointer, or ends with
  -- its only zero byte and does not begin like a pointer: labels that end in a pointer are
  -- excluded. Then a second datagram arrives, from any client, of at least eight bytes, which
  -- leaves sixteen bytes of the buffer free, and there is memory for its node. It has one question,
  -- of type A and for the same host, no answer and no authority record, and at most one additional
  -- record; the host is made of labels of 1 to 127 bytes, and as dotted text it has less than 512
  -- bytes, none of them zero. The rings of requests and of the bundle are valid, empty and have
  -- room. Then the callback for the response and a round of the bundle, and the callback for the
  -- datagram, a round of the worker and a round of the bundle, end without a fault. They send
  -- exactly two messages: to each client the response to its own request, with that address.
  -- Nothing is sent upstream, and the ring to the upstream thread stays as it was.
  pub cached-answered :
      Table nodes count (y.server.hosts) f
      → f (dotted (l ∷ ls)) ≡ none
      → IsDomain (dotted (l ∷ ls))
      → fresh ≢ null
      → ((h : ℕ) → nodes h fresh ≡ 0)
      → suc (suc count) < 2 ^ suc t
      → n.shost ≡ dotted (l ∷ ls)
      → n.host_len ≡ length (dotted (l ∷ ls))
      → y.server.pending (integer_hash n.iden) ≡ p ∷ []
      → y.server.nodes p ≡ some n
      → n.iden ≡ i + 256 * j
      → IsRequest n b0 b1 f0 f1 q0 q1 a0 a1 rest
      → At (filled stale datagram) 0 (i ∷ j ∷ tail)
      → IsAnswer r
      → r.rdata ≡ a ∷ b ∷ c ∷ d ∷ []
      → At (filled stale datagram) (header_len + n.host_len + 6) (wire r ++ others)
      → header_len + n.host_len + 6 < length (take buff_len datagram)
      → (given a b c d) ≢ 0
      → p' ≢ null
      → IsValid (y.requests)
      → contents (y.requests) ≡ []
      → 0 < y.requests.prod.mask
      → IsValid (y.server.outbox)
      → contents (y.server.outbox) ≡ []
      → 0 < y.server.outbox.prod.mask
      → length second + 8 ≤ 2032
      → g0 < 256
      → g1 < 256
      → IsQuery (received (c0 ∷ c1 ∷ g0 ∷ g1 ∷ r0 ∷ r1 ∷ e0 ∷ e1 ∷ second)) iden l ls 0 1
      → length (dotted (l ∷ ls)) ≤ host_data_len
      → (y1 : System) × (y' : System) × ((respond (suc (steps t)) fresh stale true datagram y
            >>= bundle_round (suc (steps t)))
          ≡ some y1)
        × ((receive
                (suc (steps t))
                p'
                fd
                true
                (some (
                  arrived
                    (steps t)
                    (steps t)
                    fd
                    sender
                    sender_len
                    iden
                    c0
                    c1
                    g0
                    g1
                    r0
                    r1
                    e0
                    e1
                    second
                    l
                    ls
                    p'
                    (given a b c d)))
                y1
              >>= λ y2. work_round (suc (steps t)) y2 >>= bundle_round (suc (steps t)))
            ≡ some y')
        × (y'.responses
            ≡ y.responses
              ++ (reply_to n b0 b1 f0 f1 q0 q1 rest (given a b c d)
                  ∷ reply
                      (steps t)
                      (steps t)
                      fd
                      sender
                      sender_len
                      iden
                      c0
                      c1
                      g0
                      g1
                      r0
                      r1
                      e0
                      e1
                      second
                      l
                      ls
                      p'
                      (given a b c d)
                  ∷ []))
        × (y'.server.inbox ≡ y.server.inbox)
        × (y'.queries ≡ y.queries)
  cached-answered table free dom ne apart room same_host same_len listed at is_iden request start
        good bytes answer inside known there v empty has_room vo empty_out room_out fits h0 h1 query
        name_fits =
      let (hosts, put, found) =
        found_again t fresh (dotted (l ∷ ls)) (given a b c d) dom table free ne apart room in
      let (
        y1,
        ran,
        sent,
        gone,
        freed,
        is_hosts,
        (vo1, out1),
        same_mask,
        (same_req, same_in, unasked),
      ) =
        awaited-answered y p n [] [] [] r others i j a b c d (steps t) fresh stale datagram tail
          true hosts b0 b1 f0 f1 q0 q1 a0 a1 rest listed tt at is_iden request start tt good bytes
          answer (omega (arith, inside)) (omega arith) (rw (same_host, same_len) put) vo empty_out
          room_out in
      let (y', ran', sent', ring1, ring2, lost, same_in', unasked') =
        known_host-answered (steps t) (steps t) fd sender sender_len iden c0 c1 g0 g1 r0 r1 e0 e1
          second l ls p' (given a b c d) y1 there (subst IsValid (sym same_req) v)
          (ap contents same_req ∙ empty) (subst (λ x. 0 < x.prod.mask) (sym same_req) has_room) vo1
          out1 (subst (λ x. 0 < x) (sym same_mask) room_out) fits h0 h1 query name_fits
          (rw (is_hosts) found) known in
      let one = reply_to n b0 b1 f0 f1 q0 q1 rest (given a b c d) in
      let two =
        reply (steps t) (steps t) fd sender sender_len iden c0 c1 g0 g1 r0 r1 e0 e1 second l ls p'
          (given a b c d) in
      (
        y1,
        y',
        ran,
        ran',
        sent' ∙ ap (λ xs. xs ++ (two ∷ [])) sent ∙ append_assoc (y.responses) (one ∷ []) (two ∷ []),
        same_in' ∙ same_in,
        unasked' ∙ unasked,
      )
