-- ===== src/Message.antt =====
-- net_common/net_common_struct.h: the request node that the rings carry, and the DNS header in it.
-- A byte is a number below 256. The program runs on x86 (net_ring uses its instructions), so a
-- 16-bit or 32-bit field in memory has its low byte first, and `char` is signed.
use Prim.Native.Nat.{bit_or}
use simp_dserver.Prelude.{ℕ, ◌+◌, ◌*◌, ◌/◌, ◌%◌, Option, List, get_elem?}
use simp_dserver.Prelude.Faults.{◌>>=◌, pure, store}

abbrev pub req_data_len : ℕ
req_data_len = 2048

abbrev pub host_data_len : ℕ
host_data_len = 512

abbrev pub type_a : ℕ
type_a = 1

abbrev pub class_ip : ℕ
class_ip = 1

-- The two 16-bit fields and four counts of `struct net_common_dnsheader`, as offsets.
abbrev pub header_len : ℕ
header_len = 12

-- `struct net_common_ring_node`. `request` is the whole array `data.request`; `shost` holds the
-- bytes written to the array of that name, which `memset` has filled with zeros. The pointers
-- `phost` and `flags` are offsets into `request`, `none` before they are set; `header` is never
-- set. The list hook `node` is modelled by the lists that hold the node.
pub record Node : Type 0 where
  pub fd : ℕ
  pub prot : ℕ
  pub cliaddr : ℕ
  pub clilen : ℕ
  pub datalen : ℕ
  pub request : List ℕ
  pub phost : Option ℕ
  pub shost : List ℕ
  pub host_len : ℕ
  pub iden : ℕ
  pub flags : Option ℕ
  pub ipv4 : ℕ

-- `*(uint16_t *)p`
unfoldable pub load16 : List ℕ → ℕ → Option ℕ
load16 buf i = do lo ← get_elem? buf i; hi ← get_elem? buf (i + 1); pure (lo + 256 * hi)

-- `ntohs` and `htons`
unfoldable pub swap16 : ℕ → ℕ
swap16 v = v % 256 * 256 + v / 256 % 256

-- `ntohs(*(uint16_t *)p)`
unfoldable pub load_be16 : List ℕ → ℕ → Option ℕ
unfolding load16 swap16
load_be16 buf i = do v ← load16 buf i; pure (swap16 v)

-- `*(uint16_t *)p = v`
unfoldable pub store16 : List ℕ → ℕ → ℕ → Option (List ℕ)
store16 buf i v = do buf ← store buf i (v % 256); store buf (i + 1) (v / 256 % 256)

-- `*(uint32_t *)p = v` and `*(uint32_t *)p`
unfoldable pub store32 : List ℕ → ℕ → ℕ → Option (List ℕ)
store32 buf i v = do buf ← store16 buf i (v % 65536); store16 buf (i + 2) (v / 65536 % 65536)

unfoldable pub load32 : List ℕ → ℕ → Option ℕ
unfolding load16
load32 buf i = do lo ← load16 buf i; hi ← load16 buf (i + 2); pure (lo + 65536 * hi)

-- `*(uint16_t *)p |= v`
unfoldable pub or16 : List ℕ → ℕ → ℕ → Option (List ℕ)
or16 buf i v = do old ← load16 buf i; store16 buf i (bit_or old v)
