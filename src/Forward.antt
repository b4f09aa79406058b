-- ===== src/Forward.antt =====
-- net_forward/net_forward.c: requests that wait for the upstream server, and its responses.
pub mod Effects
pub mod Filed
pub mod Flags
pub mod Pending
pub mod Records
pub mod Scan
mod Tests
use simp_dserver.Prelude.{
  ℕ, zero, suc, ◌+◌, ◌-◌, ◌^◌, Bool, true, false, not, ◌&&◌, Option, none, some, List, [], ◌∷◌,
  ◌++◌, ◌==◌, leb, if◌then◌else◌, length, get_elem?, take, drop, bit_and, bit_xor,
}
use simp_dserver.Prelude.Faults.{◌>>=◌, pure}
use simp_dserver.Prelude.Words.{add32, sub32, shl32, shr}
use simp_dserver.Message.{Node, header_len, load16, load_be16, load32, or16}
use simp_dserver.Ring.{Ring, success, failure, enqueue, dequeue}
use simp_dserver.Hashmap.{insert}
use simp_dserver.Hashmap.Memory.{Ptr, Heap, update}

abbrev pub list_size : ℕ
list_size = 2 ^ 12

abbrev pub hash_round : ℕ
hash_round = 0x10000

abbrev pub hash_radio : ℕ
hash_radio = 0x9e3779b9

-- `x -= y; x -= z; x ^= w`
abbrev stir : ℕ → ℕ → ℕ → ℕ → ℕ
stir x y z w = bit_xor (sub32 (sub32 x y) z) w

-- `__NET_HASH_MIX`; what is used of it is `c`.
pub mix : ℕ → ℕ → ℕ → ℕ
mix a b c =
    let a1 = stir a b c (shr c 13) in
    let b1 = stir b c a1 (shl32 a1 8) in
    let c1 = stir c a1 b1 (shr b1 13) in
    let a2 = stir a1 b1 c1 (shr c1 12) in
    let b2 = stir b1 c1 a2 (shl32 a2 16) in
    let c2 = stir c1 a2 b2 (shr b2 5) in
    let a3 = stir a2 b2 c2 (shr c2 3) in
    let b3 = stir b2 c2 a3 (shl32 a3 10) in stir c2 a3 b3 (shr b3 15)

-- `net_forward_module_inside_integer_hash`
pub integer_hash : ℕ → ℕ
unfolding mix
integer_hash iden = bit_and (mix (add32 iden hash_radio) hash_radio hash_round) (list_size - 1)

-- The nodes in memory, the lists of those that wait, the ring of nodes to forward, the host map,
-- and the ring of the bundle. A list head with its hooks is the list of the nodes that they join.
pub record Server : Type 0 where
  pub nodes : Ptr → Option Node
  pub pending : ℕ → List Ptr
  pub inbox : Ring
  pub hosts : Heap
  pub outbox : Ring

-- `net_forward_module_inside_list_init`
pub list_init : Server → Server
list_init s = record s { pending = λ h. [] }

-- `net_forward_module_inside_gethostaddr`: the server afterwards, and the datagram sent.
unfoldable pub gethostaddr : Ptr → Server → Option (Server × List ℕ)
gethostaddr p s = do
  n ← s.nodes p
  flags ← n.flags
  request ← or16 n.request flags 1
  let h = integer_hash n.iden
  pure (
    record s {
      nodes = update s.nodes p (some (record n { request = request }));
      pending = update s.pending h (s.pending h ++ (p ∷ []));
    },
    take n.datalen request,
  )

-- The search of a list, which takes out the first node with the identifier. Where there is none the
-- code goes on with the list head as if a node were around it: a fault.
pub take_first : (Ptr → Option Node) → ℕ → List Ptr → Option (Ptr × List Ptr)
take_first nodes iden [] = none
take_first nodes iden (p ∷ ps) = do
  n ← nodes p
  let rest = take_first nodes iden ps
  if n.iden == iden then some (p, ps) else do (q, qs) ← rest; pure (q, p ∷ qs)

-- `(*pos & MASK1) && (*pos & MASK2)`
unfoldable pub is_deflate : ℕ → Bool
is_deflate b = not (bit_and b 0x80 == 0) && not (bit_and b 0x40 == 0)

-- `while( *pos++ != 0);`
pub skip_name : ℕ → List ℕ → ℕ → Option ℕ
skip_name zero buff pos = none
skip_name (suc fuel) buff pos = do
  b ← get_elem? buff pos
  if b == 0 then some (pos + 1) else skip_name fuel buff (pos + 1)

-- A record ends the scan with an address, or leads to the next.
pub data Visit : Type 0 where
  address : ℕ → Visit
  next : (pos : ℕ) → Visit

-- From the length of the record's data on.
pub take_data : List ℕ → ℕ → Option Visit
take_data buff pos = do
  reslen ← load_be16 buff pos
  if reslen == 4
      then (do ip ← load32 buff (pos + 2); pure (address ip))
      else pure (next (pos + (reslen + 2)))

pub take_record : List ℕ → ℕ → Option Visit
take_record buff pos = do
  b ← get_elem? buff pos
  if is_deflate b
      then take_data buff (pos + 10)
      else (do end ← skip_name (suc (length buff)) buff pos; take_data buff (end + 8))

-- From `next` to `success`: the address found, or none at the end of the response. A failed
-- `recvfrom` (`bufflen` is -1) acts as the length 0.
pub scan : ℕ → List ℕ → ℕ → ℕ → Option (Option ℕ)
scan zero buff bufflen pos = none
scan (suc fuel) buff bufflen pos = if leb bufflen pos then some none else do
  v ← take_record buff pos
  elim v [ address ip ↦ some (some ip) | next q ↦ scan fuel buff bufflen q ]

-- What the scan leaves in the node.
pub resolve : Option ℕ → Node → Node
resolve none n = n
resolve (some ip) n = record n { ipv4 = ip }

-- `net_forward_module_inside_parse_response`. `fresh` is what `malloc` returns in the insertion,
-- whose result, like that of the last enqueue, is not looked at.
pub parse_response : ℕ → Ptr → List ℕ → ℕ → Server → Option Server
parse_response fuel fresh buff bufflen s = do
  iden ← load16 buff 0
  let h = integer_hash iden
  (p, rest) ← take_first s.nodes iden (s.pending h)
  n ← s.nodes p
  found ← scan (suc (length buff)) buff bufflen (header_len + n.host_len + 6)
  let n' = resolve found n
  (inserted, hosts) ← insert fuel fresh (n'.shost) (n'.host_len) (n'.ipv4) s.hosts
  (queued, outbox) ← enqueue fuel s.outbox p
  pure (record s {
    nodes = update s.nodes p (some n');
    pending = update s.pending h rest;
    hosts = hosts;
    outbox = outbox;
  })

abbrev pub buff_len : ℕ
buff_len = 2048

-- `net_forward_module_inside_udp_cb` on a datagram: `stale` is the buffer before `recvfrom`.
unfoldable pub udp_response : ℕ → Ptr → List ℕ → Bool → List ℕ → Server → Option Server
udp_response fuel fresh stale readable datagram s =
    if readable
    then (let got = take buff_len datagram in
        parse_response fuel fresh (got ++ drop (length got) stale) (length got) s)
    else some s
