-- ===== src/Bundle/Response.antt =====
-- net_bundle_core.c, `write_back`: the response as a DNS message.
use simp_dserver.Prelude.{
  ℕ, zero, suc, ◌+◌, ◌*◌, ◌/◌, ◌%◌, ◌<◌, ◌≡◌, refl, sym, ap, ◌∙◌, some, Option, List, [], ◌∷◌, ◌++◌,
  arith, length, length-append, take, replicate, append_assoc,
}
use simp_dserver.Prelude.Faults.{store}
use native.Mathlib.Nat.{add_assoc}
use simp_dserver.Prelude.Bits.{bit_or_bit7, bit_or_bit15}
use simp_dserver.Message.{Node, load16, swap16, store16, store32, or16}
use simp_dserver.Bundle.{mark_response, put_answer, write_back, Sent}

-- Numbers in network order.
abbrev pub be16 : ℕ → List ℕ
be16 v = v / 256 ∷ v % 256 ∷ []

abbrev pub be32 : ℕ → List ℕ
be32 v = be16 (v / 65536) ++ be16 (v % 65536)

-- An address as the memory of a `uint32_t` holds it: the first byte is the lowest.
abbrev pub address : ℕ → List ℕ
address v = v % 256 ∷ v / 256 % 256 ∷ v / 65536 % 256 ∷ v / 16777216 % 256 ∷ []

-- A resource record (RFC 1035, 4.1.3): name, type, class, time to live, length, data.
abbrev pub record_bytes : List ℕ → ℕ → ℕ → ℕ → List ℕ → List ℕ
record_bytes name kind class ttl rdata =
    name ++ (be16 kind ++ (be16 class ++ (be32 ttl ++ (be16 (length rdata) ++ rdata))))

-- A pointer to the name in the question, which starts behind the header of 12 bytes.
abbrev pub question_name : List ℕ
question_name = be16 (0xc000 + 12)

store-append :
    (pre ys : List ℕ) (k b : ℕ) {zs : List ℕ}
    → store ys k b ≡ some zs
    → store (pre ++ ys) (length pre + k) b ≡ some (pre ++ zs)
unfolding store
store-append [] ys k b e = ap (λ i. store ys i b) (omega arith) ∙ e
store-append (x ∷ pre) ys k b {zs} e =
    let shift : suc (length pre) + k ≡ suc (length pre + k) = omega arith in
    ap (λ i. store (x ∷ pre ++ ys) i b) shift ∙ rw (store-append pre ys k b e) refl

-- The flags: the top bit of each byte is set, the others stay.
mark_response-bytes :
    (b0 b1 f0 f1 q0 q1 a0 a1 : ℕ) (rest : List ℕ)
    → f0 < 256
    → f1 < 256
    → mark_response (b0 ∷ b1 ∷ f0 ∷ f1 ∷ q0 ∷ q1 ∷ a0 ∷ a1 ∷ rest)
      ≡ some (b0 ∷ b1 ∷ (128 + f0 % 128) ∷ (128 + f1 % 128) ∷ q0 ∷ q1 ∷ 0 ∷ 1 ∷ rest)
unfolding mark_response or16 load16 store16 store swap16
mark_response-bytes b0 b1 f0 f1 q0 q1 a0 a1 rest h0 h1 =
    ground (arith, bit_or_bit7 (f0 + 256 * f1), bit_or_bit15 ((f0 % 128 + 128) + 256 * f1))

store16-append :
    (pre ys : List ℕ) (k v : ℕ) {ms zs : List ℕ}
    → store ys k (v % 256) ≡ some ms
    → store ms (k + 1) (v / 256 % 256) ≡ some zs
    → store16 (pre ++ ys) (length pre + k) v ≡ some (pre ++ zs)
unfolding store16
store16-append pre ys k v {ms} e f = rw (store-append pre ys k (v % 256) e) (
    ap (λ i. store (pre ++ ms) i (v / 256 % 256)) (add_assoc (length pre) k 1)
    ∙ store-append pre ms (k + 1) (v / 256 % 256) f)

store32-append :
    (pre ys : List ℕ) (k v : ℕ) {ws bs cs ds : List ℕ}
    → store ys k (v % 65536 % 256) ≡ some ws
    → store ws (k + 1) (v % 65536 / 256 % 256) ≡ some bs
    → store bs (k + 2) (v / 65536 % 65536 % 256) ≡ some cs
    → store cs (k + 2 + 1) (v / 65536 % 65536 / 256 % 256) ≡ some ds
    → store32 (pre ++ ys) (length pre + k) v ≡ some (pre ++ ds)
unfolding store32
store32-append pre ys k v {bs} e0 e1 e2 e3 = rw (store16-append pre ys k (v % 65536) e0 e1) (
    ap (λ i. store16 (pre ++ bs) i (v / 65536 % 65536)) (add_assoc (length pre) k 2)
    ∙ store16-append pre bs (k + 2) (v / 65536 % 65536) e2 e3)

-- The answer record, with the two bytes of the time to live that are left as they are.
put_answer-bytes :
    (pre : List ℕ) (y0 y1 y2 y3 y4 y5 y6 y7 y8 y9 y10 y11 y12 y13 y14 y15 ipv4 : ℕ) (after : List ℕ)
    → put_answer
        (pre
          ++ (y0 ∷ y1 ∷ y2 ∷ y3 ∷ y4 ∷ y5 ∷ y6 ∷ y7 ∷ y8 ∷ y9 ∷ y10 ∷ y11 ∷ y12 ∷ y13 ∷ y14 ∷ y15
              ∷ after))
        (length pre)
        ipv4
      ≡ some (
          pre
          ++ (0xc0 ∷ 0x0c ∷ 0 ∷ 1 ∷ 0 ∷ 1 ∷ 0 ∷ 0x80 ∷ y8 ∷ y9 ∷ 0 ∷ 4 ∷ (address ipv4 ++ after)))
unfolding put_answer store swap16
put_answer-bytes pre y0 y1 y2 y3 y4 y5 y6 y7 y8 y9 y10 y11 y12 y13 y14 y15 ipv4 after =
    rw
      (
        store-append pre
            (y0 ∷ y1 ∷ y2 ∷ y3 ∷ y4 ∷ y5 ∷ y6 ∷ y7 ∷ y8 ∷ y9 ∷ y10 ∷ y11 ∷ y12 ∷ y13 ∷ y14 ∷ y15
              ∷ after)
            0 0xc0 refl,
        store-append pre _ 1 0x0c refl,
        store16-append pre _ 2 256 refl refl,
        store16-append pre _ 4 256 refl refl,
        store16-append pre _ 6 32768 refl refl,
        store16-append pre _ 10 1024 refl refl,
        store32-append pre _ 12 ipv4 refl refl refl refl,
      )
      (ap (λ t. some (pre ++ (0xc0 ∷ 0x0c ∷ 0 ∷ 1 ∷ 0 ∷ 1 ∷ 0 ∷ 0x80 ∷ y8 ∷ y9 ∷ 0 ∷ 4 ∷ t)))
        (ground arith))

pub take-append : (xs ys : List ℕ) (n : ℕ) → n ≡ length xs → take n (xs ++ ys) ≡ xs
take-append [] ys zero e = refl
take-append [] ys (suc n) e = absurd (omega arith)
take-append (x ∷ xs) ys zero e = absurd (omega arith)
take-append (x ∷ xs) ys (suc n) e = ap (λ t. x ∷ t) (take-append xs ys n (omega arith))

-- The header of a response to the header that starts with these eight bytes.
abbrev pub marked : ℕ → ℕ → ℕ → ℕ → ℕ → ℕ → List ℕ → List ℕ
marked b0 b1 f0 f1 q0 q1 rest =
    b0 ∷ b1 ∷ (128 + f0 % 128) ∷ (128 + f1 % 128) ∷ q0 ∷ q1 ∷ 0 ∷ 1 ∷ rest

-- A request as `udp_cb` leaves it: `datalen` bytes that start with the eight bytes named here,
-- then at least sixteen zeros in the buffer.
pub record IsRequest (item : Node) (b0 b1 f0 f1 q0 q1 a0 a1 : ℕ) (rest : List ℕ) : Type 0 where
  pub after : List ℕ
  pub buffer :
      item.request ≡ (b0 ∷ b1 ∷ f0 ∷ f1 ∷ q0 ∷ q1 ∷ a0 ∷ a1 ∷ rest) ++ (replicate 16 0 ++ after)
  pub data_length : item.datalen ≡ 8 + length rest
  pub flag_bytes : (f0 < 256) × (f1 < 256)

-- For every request of at least eight bytes with sixteen bytes of room behind it, `write_back`
-- writes only inside the buffer and sends to the client, on the socket of the request, the request
-- with the top bits of the two flag bytes set (QR and RA), the answer count one and all else as it
-- was, and behind it one resource record: a pointer to the question's name, type A, class IN, a
-- time to live of 0x00800000 seconds, and the address of the node.
pub write_back_lem :
    (item : Node) (b0 b1 f0 f1 q0 q1 a0 a1 : ℕ) (rest : List ℕ)
    → IsRequest item b0 b1 f0 f1 q0 q1 a0 a1 rest
    → write_back item
      ≡ some (record {
        fd = item.fd;
        bytes =
            marked b0 b1 f0 f1 q0 q1 rest
            ++ record_bytes question_name 1 1 0x0080_0000 (address (item.ipv4));
        peer = item.cliaddr;
        peer_len = item.clilen;
      })
unfolding write_back
write_back_lem item b0 b1 f0 f1 q0 q1 a0 a1 rest r =
    rw
      (
        r.buffer,
        mark_response-bytes b0 b1 f0 f1 q0 q1 a0 a1 (rest ++ (replicate 16 0 ++ r.after))
            r.flag_bytes.0 r.flag_bytes.1,
        answered,
      )
      (ap sent cut)
  where
    pre : List ℕ
    pre = marked b0 b1 f0 f1 q0 q1 rest

    answer : List ℕ
    answer = record_bytes question_name 1 1 0x0080_0000 (address (item.ipv4))

    all_of_it : item.datalen ≡ length pre
    all_of_it = omega (arith, r.data_length)

    answered :
        put_answer (pre ++ (replicate 16 0 ++ r.after)) (item.datalen) (item.ipv4)
        ≡ some (pre ++ (answer ++ r.after))
    answered =
        ap (λ n. put_answer (pre ++ (replicate 16 0 ++ r.after)) n (item.ipv4)) all_of_it
        ∙ put_answer-bytes pre 0 0 0 0 0 0 0 0 0 0 0 0 0 0 0 0 (item.ipv4) r.after

    sent : List ℕ → Option Sent
    sent out =
        some (record { fd = item.fd; bytes = out; peer = item.cliaddr; peer_len = item.clilen })

    cut : take (item.datalen + 2 + 2 + 2 + 4 + 2 + 4) (pre ++ (answer ++ r.after)) ≡ pre ++ answer
    cut =
        ap (take (item.datalen + 2 + 2 + 2 + 4 + 2 + 4)) (sym (append_assoc pre answer r.after))
        ∙ take-append (pre ++ answer) r.after (item.datalen + 2 + 2 + 2 + 4 + 2 + 4)
            (omega (arith, length-append pre answer, r.data_length))
