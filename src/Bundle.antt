-- ===== src/Bundle.antt =====
-- net_bundle/net_bundle_core.c: requests come in from the socket, and responses go back to it.
pub mod Bounds
pub mod Response
mod Tests
use simp_dserver.Prelude.{
  ℕ, ◌+◌, ◌-◌, Bool, Option, none, some, List, [], ◌++◌, ltb, if◌then◌else◌, length, take,
  replicate,
}
use simp_dserver.Prelude.Faults.{◌>>=◌, pure, store}
use simp_dserver.Message.{Node, req_data_len, type_a, class_ip, swap16, store16, store32, or16}

abbrev pub udp_prot : ℕ
udp_prot = 0

-- What `recvfrom` hands over: the datagram, cut to the size of the buffer, and the sender.
pub record Datagram : Type 0 where
  pub bytes : List ℕ
  pub sender : ℕ
  pub sender_len : ℕ

-- The node that `malloc` and `memset` give, with the protocol and the socket set.
unfoldable pub blank : ℕ → Node
blank fd = record {
  fd = fd;
  prot = udp_prot;
  cliaddr = 0;
  clilen = 0;
  datalen = 0;
  request = replicate req_data_len 0;
  phost = none;
  shost = [];
  host_len = 0;
  iden = 0;
  flags = none;
  ipv4 = 0;
}

-- The buffer after `recvfrom` has written `bytes` at its start.
unfoldable pub received : List ℕ → List ℕ
received bytes = take req_data_len (bytes ++ replicate (req_data_len - length bytes) 0)

-- `udp_cb`: the node that goes to `net_work_module.enqueue`, if any. `readable` is
-- `event & EV_READ`; `none` for the datagram is a failed `recvfrom`.
unfoldable pub udp_cb : ℕ → Bool → Option Datagram → Option Node
unfolding blank
udp_cb fd readable none = none
udp_cb fd readable (some d) =
    let node = record (blank fd) {
      cliaddr = d.sender;
      clilen = d.sender_len;
      datalen = length d.bytes;
      request = received d.bytes;
    } in
    if readable then (if ltb 0 (length d.bytes) then some node else none) else none

-- The first half of `write_back`: QR, RA and the answer count.
pub mark_response : List ℕ → Option (List ℕ)
mark_response buf = do buf ← or16 buf 2 0x0080; buf ← or16 buf 2 0x8000; store16 buf 6 (swap16 1)

-- The second half: the answer record at `pos`. Four bytes are skipped for the time to live, of
-- which the first two are written.
pub put_answer : List ℕ → ℕ → ℕ → Option (List ℕ)
put_answer buf pos ipv4 = do
  buf ← store buf (pos + 0) 0xc0
  buf ← store buf (pos + 1) 0x0c
  buf ← store16 buf (pos + 2) (swap16 type_a)
  buf ← store16 buf (pos + 4) (swap16 class_ip)
  buf ← store16 buf (pos + 6) (swap16 0x80)
  buf ← store16 buf (pos + 10) (swap16 4)
  store32 buf (pos + 12) ipv4

-- What `sendto` is given.
pub record Sent : Type 0 where
  pub fd : ℕ
  pub bytes : List ℕ
  pub peer : ℕ
  pub peer_len : ℕ

-- `net_bundle_core_module_inside_write_back`; `none` is a write outside the buffer. The node is
-- freed afterwards.
pub write_back : Node → Option Sent
write_back item = do
  buf ← mark_response (item.request)
  buf ← put_answer buf (item.datalen) (item.ipv4)
  pure (record {
    fd = item.fd;
    bytes = take (item.datalen + 2 + 2 + 2 + 4 + 2 + 4) buf;
    peer = item.cliaddr;
    peer_len = item.clilen;
  })
