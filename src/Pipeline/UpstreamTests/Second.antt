-- ===== src/Pipeline/UpstreamTests/Second.antt =====
-- The same host, asked for again by another client once the response is there.
use simp_dserver.Prelude.{◌≡◌, refl, arith, true, none, some, [], ◌∷◌, ◌++◌, replicate}
use simp_dserver.Prelude.Faults.{◌>>=◌}
use simp_dserver.Message.{load_be16}
use simp_dserver.Hashmap.{init}
use simp_dserver.Hashmap.Table.{Table, init-Table}
use simp_dserver.Forward.Records.{wire}
use simp_dserver.Work.Parser.{IsQuery}
use simp_dserver.Bundle.{received}
use simp_dserver.Pipeline.{System, receive, work_round, respond, bundle_round}
use simp_dserver.Pipeline.Answer
use simp_dserver.Pipeline.Cached.{given, reply_to, cached-answered}
use simp_dserver.Pipeline.UpstreamTests.{
  ring, ring-IsValid, no_hosts, rest, waits, waiting, host_record, host_record-IsAnswer, head,
  reply, waits-IsRequest, same_list,
}

no_hosts-Table : Table (λ h q. 0) 0 no_hosts (λ d. none)
unfolding init
no_hosts-Table = init-Table no_hosts

again : IsQuery (received (0x56 ∷ 0x78 ∷ 1 ∷ 0 ∷ 0 ∷ 1 ∷ 0 ∷ 0 ∷ rest)) 0x7856 (b'a' ∷ []) [] 0 1
unfolding load_be16 received
again = record {
  qdcount = refl;
  ancount = refl;
  nscount = refl;
  additional = 0;
  arcount = refl;
  arcount_le = omega arith;
  ident = refl;
  labels = omega arith;
  type_hi = omega arith;
  type_lo = omega arith;
  rest = 0 ∷ 1 ∷ [];
  question = record {
    before = 0x56 ∷ 0x78 ∷ 1 ∷ 0 ∷ 0 ∷ 1 ∷ 0 ∷ 0 ∷ 0 ∷ 0 ∷ 0 ∷ 0 ∷ [];
    after = replicate 2029 0;
    split = refl;
    length_before = refl;
  };
}

cached-answered_example :
    (y1 : System) × (y' : System) × ((respond 4 8 [] true reply waiting >>= bundle_round 4)
      ≡ some y1)
    × ((receive 4 3 6 true
            (some (
              Answer.arrived 3 3 6 88 16 0x7856 0x56 0x78 1 0 0 1 0 0 rest
                (b'a' ∷ [])
                []
                3
                (given 10 0 0 9)))
            y1
          >>= λ y2. work_round 4 y2 >>= bundle_round 4)
        ≡ some y')
    × (y'.responses
        ≡ []
          ++ (reply_to waits 0x12 0x34 1 0 0 1 rest (given 10 0 0 9)
              ∷ Answer.reply 3 3 6 88 16 0x7856 0x56 0x78 1 0 0 1 0 0 rest
                  (b'a' ∷ [])
                  []
                  3
                  (given 10 0 0 9)
              ∷ []))
    × (y'.server.inbox ≡ ring)
    × (y'.queries ≡ [])
cached-answered_example =
    cached-answered 1 waiting 9 waits host_record [] 0x12 0x34 10 0 0 9 8 [] reply
      (0x81 ∷ 0x80 ∷ 0 ∷ 1 ∷ 0 ∷ 1 ∷ (rest ++ wire host_record)) 0x12 0x34 1 0 0 1 0 0 rest 6 88 16
      0x7856 0x56 0x78 1 0 0 1 0 0 rest (b'a' ∷ []) [] 3 no_hosts-Table refl
      ((omega arith, omega arith, tt), omega arith) (omega arith) (λ h. refl) (omega arith) refl
      refl same_list refl refl waits-IsRequest
      (record { before = []; after = []; split = refl; length_before = refl }) host_record-IsAnswer
      refl (record { before = head; after = []; split = refl; length_before = refl }) (omega arith)
      (omega arith) (omega arith) ring-IsValid refl (omega arith) ring-IsValid refl (omega arith)
      (omega arith) (omega arith) (omega arith) again (omega arith)
