-- ===== src/Work/Parser.antt =====
-- net_work.c, `net_work_module_inside_parser`: which requests go where, with what host.
use simp_dserver.Prelude.{
  Option, ℕ, ◌+◌, ◌*◌, ◌≤◌, ◌<◌, ◌≡◌, ◌≢◌, refl, sym, ◌∙◌, ◌↔◌, dec_lt, ap, true, some, none, List,
  [], ◌∷◌, ◌++◌, arith, length, length-append, ◌==◌, if◌then◌else◌, Bool-cases, inl, inr,
}
use simp_dserver.Message.{Node, host_data_len, header_len, type_a, load16, load_be16}
use simp_dserver.Work.{
  rejected, forwarded, answered, counts_pass, route, check_type, parse_name, parse_question, parser,
}
use simp_dserver.Work.Name.{AreLabels, wire, dotted, At, At-head, At-tail, take_labels-wire}
use simp_dserver.Work.Overflow.{take_labels-overflow}

none-ne-some : {A : Type 0} {a : A} → ¬ (◌≡◌ {A = Option A} none (some a))
none-ne-some e = ground arith

length-wire : (ls : List (List ℕ)) → length ls < length (wire ls)
length-wire [] = omega arith
length-wire (l ∷ ls) = omega (arith, length-append l (wire ls), length-wire ls)

At-length : {buf : List ℕ} {pos : ℕ} (bs : List ℕ) → At buf pos bs → pos + length bs ≤ length buf
At-length bs a = omega (
  arith,
  ap (length {A = ℕ}) a.split,
  length-append a.before (bs ++ a.after),
  length-append bs a.after,
  a.length_before,
)

load_be16-At :
    (hi lo : ℕ) (rest : List ℕ) {buf : List ℕ} {pos : ℕ}
    → hi < 256
    → lo < 256
    → At buf pos (hi ∷ lo ∷ rest)
    → load_be16 buf pos ≡ some (hi * 256 + lo)
unfolding load_be16
load_be16-At hi lo rest h l a = rw (At-head a, At-head (At-tail a)) (ap some (omega arith))

-- A request with one question, no answer and no authority record, and at most one additional record,
-- whose question stands behind the header: the name `l ∷ ls`, of labels of 1 to 127 bytes, and its
-- type.
pub record IsQuery (req : List ℕ) (iden : ℕ) (l : List ℕ) (ls : List (List ℕ)) (hi lo : ℕ)
    : Type 0 where
  pub qdcount : load_be16 req 4 ≡ some 1
  pub ancount : load_be16 req 6 ≡ some 0
  pub nscount : load_be16 req 8 ≡ some 0
  pub additional : ℕ
  pub arcount : load_be16 req 10 ≡ some additional
  pub arcount_le : additional ≤ 1
  pub ident : load16 req 0 ≡ some iden
  pub labels : AreLabels (l ∷ ls)
  pub type_hi : hi < 256
  pub type_lo : lo < 256
  pub rest : List ℕ
  pub question : At req header_len (wire (l ∷ ls) ++ (hi ∷ lo ∷ rest))

module _ (lookup : List ℕ → ℕ → Option ℕ) (node : Node) (iden : ℕ) (l : List ℕ) (ls : List (List ℕ))
    (hi lo : ℕ) (q : IsQuery (node.request) iden l ls hi lo) where
  open q use {labels, rest, question}

  abbrev host : List ℕ
  host = dotted (l ∷ ls)

  -- The node with what is known of it once its name has been read.
  abbrev pub seen : Node
  seen = record node { iden = iden; flags = some 2 }

  abbrev pub read : Node
  read = record seen {
    shost = dotted (l ∷ ls);
    phost = some header_len;
    host_len = length (dotted (l ∷ ls));
  }

  passes : counts_pass (node.request) ≡ some true
  unfolding counts_pass
  passes = rw (q.qdcount, q.ancount, q.nscount, q.arcount) (ground (arith, q.arcount_le))

  to_name : parser lookup node ≡ parse_name lookup seen
  unfolding parser parse_question
  to_name = rw (passes, q.ident, At-head question) (ground (arith, labels))

  enough : length (l ∷ ls) < length (node.request) + 1
  enough = omega (
    arith,
    length-wire (l ∷ ls),
    At-length _ question,
    length-append (wire (l ∷ ls)) (hi ∷ lo ∷ rest),
  )

  pub parser-routes :
      length (dotted (l ∷ ls)) ≤ host_data_len
      → parser lookup node ≡ (
          if (hi * 256 + lo) == type_a
          then route lookup read
          else some (rejected (record seen { shost = dotted (l ∷ ls) })))
  unfolding parse_name check_type
  parser-routes fits =
      let (taken, there) =
        take_labels-wire (l ∷ ls) (length (node.request) + 1) header_len (hi ∷ lo ∷ rest) [] enough
          labels question (omega arith) in
      rw (to_name, taken, load_be16-At hi lo rest q.type_hi q.type_lo (At-tail there)) refl

  -- For every request with one question, no answer and no authority record, and at most one
  -- additional record, whose name is made of labels of 1 to 127 bytes and fits the 512 bytes of
  -- `shost` as dotted text, and for which the search of the host map ends with `found`: the parser
  -- ends without a fault and records the identifier, the place of the flags and the text. A node
  -- whose question is not of type A is rejected. One of type A has also the place of the name and
  -- the length of the text, and it is forwarded where `found` is 0, and else answered with `found`
  -- as its address. Nothing else in the node changes.
  pub parser-wire :
      (found : ℕ)
      → length (dotted (l ∷ ls)) ≤ host_data_len
      → lookup (dotted (l ∷ ls)) (length (dotted (l ∷ ls))) ≡ some found
      → parser lookup node
        ≡ some (
            if (hi * 256 + lo) == type_a
            then (if found == 0 then forwarded read else answered (record read { ipv4 = found }))
            else rejected (record seen { shost = dotted (l ∷ ls) }))
  unfolding route
  parser-wire found fits searched =
      parser-routes fits ∙ elim (Bool-cases ((hi * 256 + lo) == type_a)) [
        | inl a ↦ rw (a, searched) refl
        | inr other ↦ rw other refl
      ]

  too_long : host_data_len < length (dotted (l ∷ ls)) → parser lookup node ≡ none
  unfolding parse_name
  too_long over =
      rw
        (
          to_name,
          take_labels-overflow (l ∷ ls) (length (node.request) + 1) header_len (hi ∷ lo ∷ rest) []
              labels question (omega arith) (omega arith),
        )
        refl

  -- For every request with one question, no answer and no authority record, and at most one additional
  -- record, whose name is made of labels of 1 to 127 bytes, and for which the search of the host map
  -- ends: the parser faults exactly if the name has more than the 512 bytes of `shost` as dotted text.
  pub parser-overflow :
      (found : ℕ)
      → lookup (dotted (l ∷ ls)) (length (dotted (l ∷ ls))) ≡ some found
      → (parser lookup node ≡ none) ↔ (host_data_len < length (dotted (l ∷ ls)))
  parser-overflow found searched = (
    λ fault. elim (dec_lt host_data_len (length (dotted (l ∷ ls)))) [
      | yes over ↦ over
      | no fits ↦
          absurd (none-ne-some (sym fault ∙ parser-wire found (omega (arith, fits)) searched))
    ],
    too_long,
  )

pub route-forwarded :
    (lookup : List ℕ → ℕ → Option ℕ) (node : Node)
    → lookup (node.shost) (node.host_len) ≡ some 0
    → route lookup node ≡ some (forwarded node)
unfolding route
route-forwarded lookup node found = ground arith

pub route-answered :
    (lookup : List ℕ → ℕ → Option ℕ) (node : Node) (ip : ℕ)
    → lookup (node.shost) (node.host_len) ≡ some ip
    → ip ≢ 0
    → route lookup node ≡ some (answered (record node { ipv4 = ip }))
unfolding route
route-answered lookup node ip found ne = ground arith

-- One question, no answer and no authority record, and at most one additional record.
abbrev pub HasCounts : List ℕ → Type 0
HasCounts req =
    (load_be16 req 4 ≡ some 1)
    × (load_be16 req 6 ≡ some 0)
    × (load_be16 req 8 ≡ some 0)
    × (additional : ℕ) × (load_be16 req 10 ≡ some additional)
    × (additional ≤ 1)

-- What the parser does not touch.
abbrev pub Keeps : Node → Node → Type 0
Keeps node out =
    (out.request ≡ node.request)
    × (out.datalen ≡ node.datalen)
    × (out.fd ≡ node.fd)
    × (out.prot ≡ node.prot)
    × (out.cliaddr ≡ node.cliaddr)
    × (out.clilen ≡ node.clilen)

-- What the parser records, besides the host.
abbrev pub Recorded : List ℕ → Node → Type 0
Recorded req out =
    (load16 req 0 ≡ some (out.iden))
    × (out.flags ≡ some 2)
    × (out.phost ≡ some header_len)
    × (out.host_len ≡ length out.shost)

-- What a node that is forwarded satisfies. Its request has one question, no answer and no authority
-- record, and at most one additional record. Its request, length, socket, protocol, client and address
-- are those of the node before. It carries the identifier of the request, the places of the flags and
-- of the host in it, and the length of its host, and the search of the host map gives 0 for it.
pub parser-forwarded :
    (lookup : List ℕ → ℕ → Option ℕ) (node out : Node)
    → parser lookup node ≡ some (forwarded out)
    → HasCounts (node.request)
      × Keeps node out
      × Recorded (node.request) out
      × (out.ipv4 ≡ node.ipv4)
      × (lookup out.shost out.host_len ≡ some 0)
unfolding parser parse_question parse_name check_type route counts_pass
parser-forwarded lookup node out e = ground arith

-- What a node that is answered at once satisfies. Its request has one question, no answer and no
-- authority record, and at most one additional record. Its request, length, socket, protocol and client
-- are those of the node before. It carries the identifier of the request, the places of the flags and
-- of the host in it, and the length of its host, and its address is what the search of the host map
-- gives for the host, and not 0.
pub parser-answered :
    (lookup : List ℕ → ℕ → Option ℕ) (node out : Node)
    → parser lookup node ≡ some (answered out)
    → HasCounts (node.request)
      × Keeps node out
      × Recorded (node.request) out
      × (lookup out.shost out.host_len ≡ some (out.ipv4))
      × (out.ipv4 ≢ 0)
unfolding parser parse_question parse_name check_type route counts_pass
parser-answered lookup node out e = ground arith
