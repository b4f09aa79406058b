-- ===== src/Work/Tests.antt =====
-- The parser on a request for www.baidu.com, and its theorems at concrete requests.
use simp_dserver.Prelude.{
  Option, ℕ, ◌≡◌, ◌≢◌, refl, some, none, List, [], ◌∷◌, ◌++◌, ◌↔◌, ◌<◌, length, arith, replicate,
}
use simp_dserver.Message.{Node, load_be16}
use simp_dserver.Work.{rejected, forwarded, answered, parser}
use simp_dserver.Work.Name.{wire, dotted}
use simp_dserver.Work.Parser.{
  IsQuery, HasCounts, Keeps, Recorded, parser-wire, parser-overflow, parser-forwarded,
  parser-answered,
}

abbrev www : List ℕ
www = b'w' ∷ b'w' ∷ b'w' ∷ []

abbrev baidu : List ℕ
baidu = b'b' ∷ b'a' ∷ b'i' ∷ b'd' ∷ b'u' ∷ []

abbrev top : List ℕ
top = b'c' ∷ b'o' ∷ b'm' ∷ []

abbrev name : List (List ℕ)
name = www ∷ baidu ∷ top ∷ []

-- Identifier 0x1234, recursion desired, one question.
abbrev header : List ℕ
header = 0x12 ∷ 0x34 ∷ 1 ∷ 0 ∷ 0 ∷ 1 ∷ 0 ∷ 0 ∷ 0 ∷ 0 ∷ 0 ∷ 0 ∷ []

abbrev request_for : List (List ℕ) → ℕ → List ℕ
request_for ls kind = header ++ ((wire ls ++ (0 ∷ kind ∷ 0 ∷ 1 ∷ [])) ++ replicate 8 0)

abbrev node_for : List (List ℕ) → ℕ → Node
node_for ls kind = record {
  fd = 5;
  prot = 0;
  cliaddr = 77;
  clilen = 16;
  datalen = 31;
  request = request_for ls kind;
  phost = none;
  shost = [];
  host_len = 0;
  iden = 0;
  flags = none;
  ipv4 = 0;
}

abbrev known : List ℕ → ℕ → Option ℕ
known host len = some 0x0100007f

abbrev unknown : List ℕ → ℕ → Option ℕ
unknown host len = some 0

abbrev parsed : Node
parsed = record (node_for name 1) {
  iden = 0x3412;
  flags = some 2;
  phost = some 12;
  shost = dotted name;
  host_len = 13;
}

parser-known :
    parser known (node_for name 1) ≡ some (answered (record parsed { ipv4 = 0x0100007f }))
unfolding parser load_be16
parser-known = refl

parser-unknown : parser unknown (node_for name 1) ≡ some (forwarded parsed)
unfolding parser load_be16
parser-unknown = refl

parser-mx :
    parser known (node_for name 15)
    ≡ some (
        rejected (record (node_for name 15) { iden = 0x3412; flags = some 2; shost = dotted name }))
unfolding parser load_be16
parser-mx = refl

query : IsQuery (request_for name 1) 0x3412 www (baidu ∷ top ∷ []) 0 1
unfolding load_be16
query = record {
  qdcount = refl;
  ancount = refl;
  nscount = refl;
  additional = 0;
  arcount = refl;
  arcount_le = omega arith;
  ident = refl;
  labels = omega arith;
  type_hi = omega arith;
  type_lo = omega arith;
  rest = 0 ∷ 1 ∷ [];
  question = record { before = header; after = replicate 8 0; split = refl; length_before = refl };
}

-- Nine labels of 63 bytes: 575 bytes of text.
abbrev long_label : List ℕ
long_label = replicate 63 b'a'

abbrev long_name : List (List ℕ)
long_name = replicate 8 long_label

abbrev long_request : List ℕ
long_request = request_for (long_label ∷ long_name) 1

long_query : IsQuery long_request 0x3412 long_label long_name 0 1
unfolding load_be16
long_query = record {
  qdcount = refl;
  ancount = refl;
  nscount = refl;
  additional = 0;
  arcount = refl;
  arcount_le = omega arith;
  ident = refl;
  labels = omega arith;
  type_hi = omega arith;
  type_lo = omega arith;
  rest = 0 ∷ 1 ∷ [];
  question = record { before = header; after = replicate 8 0; split = refl; length_before = refl };
}

parser-wire_example : parser unknown (node_for name 1) ≡ some (forwarded parsed)
parser-wire_example =
    parser-wire unknown (node_for name 1) 0x3412 www (baidu ∷ top ∷ []) 0 1 query 0 (omega arith)
      refl

parser-overflow_example :
    (parser known (node_for (long_label ∷ long_name) 1) ≡ none)
    ↔ (512 < length (dotted (long_label ∷ long_name)))
parser-overflow_example =
    parser-overflow known (node_for (long_label ∷ long_name) 1) 0x3412 long_label long_name 0 1
      long_query 0x0100007f refl

parser-forwarded_example :
    HasCounts (request_for name 1)
    × Keeps (node_for name 1) parsed
    × Recorded (request_for name 1) parsed
    × (◌≡◌ {A = ℕ} 0 0)
    × (unknown (dotted name) 13 ≡ some 0)
parser-forwarded_example = parser-forwarded unknown (node_for name 1) parsed parser-unknown

parser-answered_example :
    HasCounts (request_for name 1)
    × Keeps (node_for name 1) parsed
    × Recorded (request_for name 1) parsed
    × (known (dotted name) 13 ≡ some 0x0100007f)
    × (◌≢◌ {A = ℕ} 0x0100007f 0)
parser-answered_example =
    parser-answered known (node_for name 1) (record parsed { ipv4 = 0x0100007f }) parser-known
