-- ===== src/Work.antt =====
-- net_work/net_work.c: the worker that parses a request and sends it on.
pub mod Name
pub mod Overflow
pub mod Parser
mod Tests
use simp_dserver.Prelude.{
  ℕ, zero, suc, ◌+◌, Bool, true, false, Option, none, some, List, [], ◌∷◌, ◌++◌, ◌||◌, ◌&&◌, not,
  ◌==◌, ltb, leb, if◌then◌else◌, length, get_elem?,
}
use simp_dserver.Prelude.Faults.{◌>>=◌, pure}
use simp_dserver.Message.{Node, host_data_len, header_len, type_a, load16, load_be16, swap16}

-- `*h++ = c; len++`: a write past the array is a fault.
pub put_host : List ℕ → ℕ → Option (List ℕ)
put_host host c = if ltb (length host) host_data_len then some (host ++ (c ∷ [])) else none

-- The `for` loop: `n` bytes from `pos` on go to the host. What it gives is `pos2` and the host.
pub copy_label : ℕ → List ℕ → ℕ → List ℕ → Option (ℕ × List ℕ)
copy_label zero req pos host = some (pos, host)
copy_label (suc n) req pos host = do
  c ← get_elem? req pos
  host ← put_host host c
  copy_label n req (pos + 1) host

-- The rounds that `for(j = 0; j < tmp; j++)` makes: `tmp` is a signed char.
pub rounds : ℕ → ℕ
rounds b = if ltb b 128 then b else 0

-- `if(*pos2 != 0)`: a dot between labels.
pub put_dot : ℕ → List ℕ → Option (List ℕ)
unfolding put_host
put_dot c host = if c == 0 then some host else put_host host b'.'

-- One label, its length byte at `pos` read already, and the dot after it.
pub take_label : ℕ → List ℕ → ℕ → List ℕ → Option (ℕ × List ℕ)
unfolding copy_label rounds put_dot
take_label b req pos host = do
  (pos, host) ← copy_label (rounds b) req (pos + 1) host
  c ← get_elem? req pos
  host ← put_dot c host
  pure (pos, host)

-- The `while` loop, to the ending zero. Each round moves on, so that fuel above the length of the
-- buffer never runs out (`Work.Name`).
pub take_labels : ℕ → List ℕ → ℕ → List ℕ → Option (ℕ × List ℕ)
unfolding take_label
take_labels zero req pos host = none
take_labels (suc fuel) req pos host = do
  b ← get_elem? req pos
  if b == 0
      then some (pos, host)
      else do (pos, host) ← take_label b req pos host; take_labels fuel req pos host

-- What becomes of a node: `ret = -1` (the caller drops it), `net_forward_module.enqueue`, or
-- `net_bundle_core_module.enqueue`.
pub data Outcome : Type 0 where
  rejected : Node → Outcome
  forwarded : Node → Outcome
  answered : Node → Outcome

-- The first four tests: one question, no answer, no authority record, at most one additional one.
pub counts_pass : List ℕ → Option Bool
counts_pass req = do
  qdcount ← load_be16 req 4
  ancount ← load_be16 req 6
  nscount ← load_be16 req 8
  arcount ← load_be16 req 10
  pure (qdcount == 1 && ancount == 0 && nscount == 0 && leb arcount 1)

-- `pos2[0] <= 0` for a signed char
abbrev pub not_positive : ℕ → Bool
not_positive b = b == 0 || leb 128 b

-- The lookup, and where the node goes.
pub route : (List ℕ → ℕ → Option ℕ) → Node → Option Outcome
route lookup node = do
  found ← lookup node.shost node.host_len
  pure (if found == 0 then forwarded node else answered (record node { ipv4 = found }))

-- From the name's end on: the type of the question must be A.
pub check_type : (List ℕ → ℕ → Option ℕ) → Node → ℕ → List ℕ → Option Outcome
unfolding route
check_type lookup node pos host = do
  qtype ← load_be16 (node.request) (pos + 1)
  let named = record node { shost = host; phost = some header_len; host_len = length host }
  if qtype == type_a then route lookup named else pure (rejected (record node { shost = host }))

parse_name : (List ℕ → ℕ → Option ℕ) → Node → Option Outcome
unfolding check_type take_labels
parse_name lookup node = do
  (pos, host) ← take_labels (length (node.request) + 1) (node.request) header_len []
  check_type lookup node pos host

-- After the counts have passed.
parse_question : (List ℕ → ℕ → Option ℕ) → Node → Option Outcome
unfolding parse_name
parse_question lookup node = do
  iden ← load16 (node.request) 0
  first ← get_elem? (node.request) header_len
  let seen = record node { iden = iden; flags = some 2 }
  if not_positive first then some (rejected seen) else parse_name lookup seen

-- `net_work_module_inside_parser`; `lookup` is `net_hashmap_core_module.search`. `none` is a read
-- outside `request` or a write outside `shost`, or a search that faults.
pub parser : (List ℕ → ℕ → Option ℕ) → Node → Option Outcome
unfolding parse_question counts_pass
parser lookup node = do
  pass ← counts_pass (node.request)
  if pass then parse_question lookup node else some (rejected node)
