-- ===== src/Bundle/Tests.antt =====
-- A request and its response, byte by byte, and the theorems at concrete messages.
use simp_dserver.Prelude.{
  ℕ, ◌+◌, ◌≤◌, ◌≡◌, refl, true, some, none, List, [], ◌∷◌, ◌++◌, arith, length, replicate,
}
use simp_dserver.Prelude.Faults.{store}
use simp_dserver.Message.{Node, load16, store16, store32, or16, swap16}
use simp_dserver.Bundle.{Datagram, Sent, received, udp_cb, mark_response, put_answer, write_back}
use simp_dserver.Bundle.Response.{
  IsRequest, marked, record_bytes, question_name, address, write_back_lem,
}
use simp_dserver.Bundle.Bounds.{write_back-room, write_back-overflow}

-- A question for the name `a`, behind its header.
abbrev tail : List ℕ
tail = 0 ∷ 0 ∷ 0 ∷ 0 ∷ 1 ∷ b'a' ∷ 0 ∷ 0 ∷ 1 ∷ 0 ∷ 1 ∷ []

abbrev item : Node
item = record {
  fd = 5;
  prot = 0;
  cliaddr = 77;
  clilen = 16;
  datalen = 19;
  request = (0x12 ∷ 0x34 ∷ 1 ∷ 0 ∷ 0 ∷ 1 ∷ 0 ∷ 0 ∷ tail) ++ (replicate 16 0 ++ []);
  phost = some 12;
  shost = b'a' ∷ [];
  host_len = 1;
  iden = 0x3412;
  flags = some 2;
  ipv4 = 0x0100007f;
}

abbrev response : List ℕ
response =
    0x12
    ∷ 0x34
    ∷ 0x81
    ∷ 0x80
    ∷ 0
    ∷ 1
    ∷ 0
    ∷ 1
    ∷ (tail ++ (0xc0 ∷ 0x0c ∷ 0 ∷ 1 ∷ 0 ∷ 1 ∷ 0 ∷ 0x80 ∷ 0 ∷ 0 ∷ 0 ∷ 4 ∷ 127 ∷ 0 ∷ 0 ∷ 1 ∷ []))

abbrev reply : Sent
reply = record { fd = 5; bytes = response; peer = 77; peer_len = 16 }

write_back-item : write_back item ≡ some reply
unfolding write_back mark_response put_answer or16 load16 store32 store16 store swap16
write_back-item = refl

item-IsRequest : IsRequest item 0x12 0x34 1 0 0 1 0 0 tail
item-IsRequest = record { after = []; buffer = refl; data_length = refl; flag_bytes = omega arith }

abbrev large : Datagram
large = record { bytes = replicate 2040 1; sender = 77; sender_len = 16 }

abbrev large_node : Node
large_node = record {
  fd = 5;
  prot = 0;
  cliaddr = 77;
  clilen = 16;
  datalen = 2040;
  request = replicate 2040 1 ++ replicate 8 0;
  phost = none;
  shost = [];
  host_len = 0;
  iden = 0;
  flags = none;
  ipv4 = 0;
}

udp_cb-large : udp_cb 5 true (some large) ≡ some large_node
unfolding udp_cb received
udp_cb-large = refl

write_back_lem_example :
    write_back item
    ≡ some (record {
      fd = 5;
      bytes =
          marked 0x12 0x34 1 0 0 1 tail
          ++ record_bytes question_name 1 1 0x0080_0000 (address 0x0100007f);
      peer = 77;
      peer_len = 16;
    })
write_back_lem_example = write_back_lem item 0x12 0x34 1 0 0 1 0 0 tail item-IsRequest

write_back-room_example : 19 + 16 ≤ length (item.request)
write_back-room_example = write_back-room item reply write_back-item

write_back-overflow_example : write_back (record large_node { ipv4 = 9 }) ≡ none
write_back-overflow_example = write_back-overflow 5 large large_node 9 udp_cb-large (omega arith)
