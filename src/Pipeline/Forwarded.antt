-- ===== src/Pipeline/Forwarded.antt =====
-- A request for a host that the map does not know, from the socket to the upstream server.
use simp_dserver.Prelude.{
  ℕ, suc, ◌+◌, ◌*◌, ◌/◌, ◌-◌, ◌≤◌, ◌<◌, ◌≡◌, ◌≢◌, refl, ap, ◌∙◌, arith, true, some, List, [], ◌∷◌,
  ◌++◌, length, replicate,
}
use simp_dserver.Prelude.Bits.{bit_or_bit0}
use simp_dserver.Prelude.Faults.{◌>>=◌, store}
use simp_dserver.Message.{Node, host_data_len, header_len, load16, store16, or16}
use simp_dserver.Ring.{Ring}
use simp_dserver.Ring.Inv.{IsValid, contents}
use simp_dserver.Hashmap.{lookup}
use simp_dserver.Hashmap.Memory.{Ptr, null, Heap, update}
use simp_dserver.Work.{forwarded, parser}
use simp_dserver.Work.Name.{dotted}
use simp_dserver.Work.Parser.{IsQuery, parser-routes, route-forwarded}
use simp_dserver.Forward.{Server, gethostaddr, integer_hash}
use simp_dserver.Bundle.{received, blank}
use simp_dserver.Bundle.Response.{take-append}
use simp_dserver.Pipeline.{System, set_node, receive, found_in, settle, work_round, forward_round}
use simp_dserver.Pipeline.Places.{update-here, enqueue-contents, dequeue-contents}
use simp_dserver.Pipeline.Answer.{queued, receive-queued, received-padded}

-- The flag for a recursion that is desired is the lowest bit of the first flag byte.
or16-bit0 :
    (b0 b1 f0 f1 : ℕ) (rest : List ℕ)
    → f0 < 256
    → f1 < 256
    → or16 (b0 ∷ b1 ∷ f0 ∷ f1 ∷ rest) 2 1 ≡ some (b0 ∷ b1 ∷ (f0 / 2 * 2 + 1) ∷ f1 ∷ rest)
unfolding or16 load16 store16 store
or16-bit0 b0 b1 f0 f1 rest h0 h1 = ground (arith, bit_or_bit0 (f0 + 256 * f1))

module _ (f g fd sender sender_len iden : ℕ) (b0 b1 f0 f1 q0 q1 a0 a1 : ℕ) (rest : List ℕ)
    (l : List ℕ) (ls : List (List ℕ)) (p : Ptr) where
  abbrev bytes : List ℕ
  bytes = b0 ∷ b1 ∷ f0 ∷ f1 ∷ q0 ∷ q1 ∷ a0 ∷ a1 ∷ rest

  -- The query to the upstream server.
  abbrev pub desired : List ℕ
  desired = b0 ∷ b1 ∷ (f0 / 2 * 2 + 1) ∷ f1 ∷ q0 ∷ q1 ∷ a0 ∷ a1 ∷ rest

  abbrev came : Node
  came = queued f g fd sender sender_len iden b0 b1 f0 f1 q0 q1 a0 a1 rest l ls p 0

  -- The node as the parser leaves it, and as it waits.
  abbrev pub unknown : Node
  unknown = record (queued f g fd sender sender_len iden b0 b1 f0 f1 q0 q1 a0 a1 rest l ls p 0) {
    iden = iden;
    flags = some 2;
    shost = dotted (l ∷ ls);
    phost = some header_len;
    host_len = length (dotted (l ∷ ls));
  }

  abbrev zeros : List ℕ
  zeros = replicate 16 0 ++ replicate (2032 - length bytes) 0

  abbrev pub waiting_node : Node
  waiting_node = record unknown {
    request =
        desired
        ++ (replicate 16 0
            ++ replicate (2032 - length (b0 ∷ b1 ∷ f0 ∷ f1 ∷ q0 ∷ q1 ∷ a0 ∷ a1 ∷ rest)) 0);
  }

  parser-unknown :
      (m : Heap)
      → IsQuery (received bytes) iden l ls 0 1
      → length (dotted (l ∷ ls)) ≤ host_data_len
      → lookup (suc g) (dotted (l ∷ ls)) (length (dotted (l ∷ ls))) m ≡ some (0, m)
      → parser (found_in (suc g) m) came ≡ some (forwarded unknown)
  unfolding found_in blank
  parser-unknown m query name_fits found =
      parser-routes (found_in (suc g) m) came iden l ls 0 1 query name_fits
      ∙ route-forwarded (found_in (suc g) m) _ (rw (found_in, found) refl)

  work_round-forwarded :
      (x : System) (q : List Ptr)
      → IsValid (x.requests)
      → contents (x.requests) ≡ p ∷ q
      → x.server.nodes p ≡ some came
      → IsValid (x.server.inbox)
      → length (contents (x.server.inbox)) < x.server.inbox.prod.mask
      → IsQuery (received bytes) iden l ls 0 1
      → length (dotted (l ∷ ls)) ≤ host_data_len
      → lookup (suc g) (dotted (l ∷ ls)) (length (dotted (l ∷ ls))) (x.server.hosts)
        ≡ some (0, x.server.hosts)
      → (r : Ring) × (o : Ring) × (work_round (suc g) x
          ≡ some (record x {
            requests = r;
            server = record (x.server) {
              nodes = update x.server.nodes p (some unknown);
              inbox = o;
            };
          }))
        × (IsValid r × (contents r ≡ q))
        × (IsValid o × (contents o ≡ contents (x.server.inbox) ++ (p ∷ [])))
  unfolding work_round settle
  work_round-forwarded x q v held at vo room query name_fits found =
      let (r, taken, vr, left, mask) = dequeue-contents v g p q held in
      let (o, put, vo', added, mask_put) = enqueue-contents vo g p room in
      (
        r,
        o,
        rw (taken, at, parser-unknown (x.server.hosts) query name_fits found, put) refl,
        (vr, left),
        (vo', added),
      )

  gethostaddr-desired :
      (s : Server)
      → s.nodes p ≡ some unknown
      → length bytes ≤ 2032
      → f0 < 256
      → f1 < 256
      → gethostaddr p s
        ≡ some (
          record s {
            nodes = update s.nodes p (some waiting_node);
            pending =
                update s.pending (integer_hash iden) (s.pending (integer_hash iden) ++ (p ∷ []));
          },
          desired,
        )
  unfolding gethostaddr
  gethostaddr-desired s at fits h0 h1 =
      rw (at, received-padded bytes fits, or16-bit0 b0 b1 f0 f1 _ h0 h1)
        (ap
          (λ query. some (
            record s {
              nodes = update s.nodes p (some waiting_node);
              pending =
                  update s.pending (integer_hash iden) (s.pending (integer_hash iden) ++ (p ∷ []));
            },
            query,
          ))
          (take-append desired zeros (length bytes) refl))

  forward_round-waits :
      (x : System) (q : List Ptr)
      → IsValid (x.server.inbox)
      → contents (x.server.inbox) ≡ p ∷ q
      → x.server.nodes p ≡ some unknown
      → length bytes ≤ 2032
      → f0 < 256
      → f1 < 256
      → (o : Ring) × (forward_round (suc f) x
          ≡ some (record x {
            server = record (x.server) {
              nodes = update x.server.nodes p (some waiting_node);
              pending =
                  update x.server.pending
                    (integer_hash iden)
                    (x.server.pending (integer_hash iden) ++ (p ∷ []));
              inbox = o;
            };
            queries = x.queries ++ (desired ∷ []);
          }))
        × IsValid o
        × (contents o ≡ q)
  unfolding forward_round
  forward_round-waits x q v held at fits h0 h1 =
      let (o, taken, vo, left, mask) = dequeue-contents v f p q held in
      (
        o,
        rw (taken, gethostaddr-desired (record (x.server) { inbox = o }) at fits h0 h1) refl,
        vo,
        left,
      )

  -- Over a server whose ring of requests and whose ring to forward are valid, empty and have room,
  -- a datagram of at least eight bytes arrives that leaves sixteen bytes of the buffer free, and
  -- there is memory for its node. It has one question, of type A, no answer and no authority
  -- record, and at most one additional record. The name asked for is made of labels of 1 to 127
  -- bytes and has at most 512 bytes as dotted text, and the search of the host map gives 0 for it.
  -- Then its callback, one round of the worker and one round of the forwarding part end without a
  -- fault. They send exactly one message, a query to the upstream server: the request with the flag
  -- for a desired recursion set and all else as it was. The node waits, with this request, as the
  -- last in the list of its identifier; the two rings are valid and empty again, nothing was sent
  -- to a client, and the ring of the bundle is as it was.
  pub unknown_host-forwarded :
      (y : System)
      → p ≢ null
      → IsValid (y.requests)
      → contents (y.requests) ≡ []
      → 0 < y.requests.prod.mask
      → IsValid (y.server.inbox)
      → contents (y.server.inbox) ≡ []
      → 0 < y.server.inbox.prod.mask
      → length rest + 8 ≤ 2032
      → f0 < 256
      → f1 < 256
      → IsQuery (received (b0 ∷ b1 ∷ f0 ∷ f1 ∷ q0 ∷ q1 ∷ a0 ∷ a1 ∷ rest)) iden l ls 0 1
      → length (dotted (l ∷ ls)) ≤ host_data_len
      → lookup (suc g) (dotted (l ∷ ls)) (length (dotted (l ∷ ls))) (y.server.hosts)
        ≡ some (0, y.server.hosts)
      → (y' : System) × ((receive
              (suc f)
              p
              fd
              true
              (some (record {
                bytes = b0 ∷ b1 ∷ f0 ∷ f1 ∷ q0 ∷ q1 ∷ a0 ∷ a1 ∷ rest;
                sender = sender;
                sender_len = sender_len;
              }))
              y
            >>= λ y1. work_round (suc g) y1 >>= forward_round (suc f))
          ≡ some y')
        × (y'.queries ≡ y.queries ++ (desired ∷ []))
        × ((y'.server.nodes p ≡ some waiting_node)
            × (y'.server.pending (integer_hash iden)
                ≡ y.server.pending (integer_hash iden) ++ (p ∷ [])))
        × (IsValid (y'.requests) × (contents (y'.requests) ≡ []))
        × (IsValid (y'.server.inbox) × (contents (y'.server.inbox) ≡ []))
        × ((y'.responses ≡ y.responses)
            × (y'.server.outbox ≡ y.server.outbox)
            × (y'.server.hosts ≡ y.server.hosts))
  unknown_host-forwarded y ne v empty room vi empty_in room_in fits h0 h1 query name_fits found =
      let w = y.server.pending in
      let (r1, received1, v1, held1) =
        receive-queued f g fd sender sender_len iden b0 b1 f0 f1 q0 q1 a0 a1 rest l ls p 0 y ne v
          (omega (arith, ap length empty)) in
      let y1 : System = record (set_node p (some came) y) { requests = r1 } in
      let (r2, o2, worked, (v2, held2), (vo2, in2)) =
        work_round-forwarded y1 [] v1 (held1 ∙ ap (λ q. q ++ (p ∷ [])) empty)
          (update-here y.server.nodes p (some came)) vi (omega (arith, ap length empty_in)) query
          name_fits found in
      let y2 : System = record y1 {
        requests = r2;
        server = record (y1.server) { nodes = update y1.server.nodes p (some unknown); inbox = o2 };
      } in
      let (o3, filed, vo3, in3) =
        forward_round-waits y2 [] vo2 (in2 ∙ ap (λ q. q ++ (p ∷ [])) empty_in)
          (update-here y1.server.nodes p (some unknown)) (omega arith) h0 h1 in
      (
        record y2 {
          server = record (y2.server) {
            nodes = update y2.server.nodes p (some waiting_node);
            pending = update w (integer_hash iden) (w (integer_hash iden) ++ (p ∷ []));
            inbox = o3;
          };
          queries = y2.queries ++ (desired ∷ []);
        },
        rw (received1, worked, filed) refl,
        refl,
        (
          update-here y2.server.nodes p (some waiting_node),
          update-here w (integer_hash iden) (w (integer_hash iden) ++ (p ∷ [])),
        ),
        (v2, held2),
        (vo3, in3),
        (refl, refl, refl),
      )
