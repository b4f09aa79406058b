-- ===== src/Bundle/Bounds.antt =====
-- net_bundle_core.c: how much room `write_back` needs, and what `udp_cb` leaves it.
use simp_dserver.Prelude.{
  ℕ, zero, suc, ◌+◌, ◌-◌, ◌/◌, ◌%◌, ◌≤◌, ◌<◌, ◌≡◌, ap, true, Option, none, some, List, [], ◌∷◌,
  ◌++◌, arith, length, length-append, length-replicate, length-take, replicate, Option-cases, inl,
  inr, bit_or,
}
use simp_dserver.Prelude.Faults.{◌>>=◌, >>=-eq-some, store}
use simp_dserver.Message.{
  Node, req_data_len, load16, store16, store32, or16, swap16, type_a, class_ip,
}
use simp_dserver.Bundle.{Datagram, Sent, received, udp_cb, mark_response, put_answer, write_back}

-- A write that succeeds is inside the buffer, and keeps its length.
record Wrote (buf : List ℕ) (last : ℕ) (out : List ℕ) : Type 0 where
  inside : last < length buf
  same : length out ≡ length buf

abbrev length? : Option (List ℕ) → ℕ
length? none = 0
length? (some xs) = length xs

store-Wrote : (buf : List ℕ) (i b : ℕ) (out : List ℕ) → store buf i b ≡ some out → Wrote buf i out
unfolding store
store-Wrote [] i b out e = cc
store-Wrote (x ∷ xs) zero b out e = omega (arith, ap length? e)
store-Wrote (x ∷ xs) (suc i) b out e =
    let (mid, e0, e1) = >>=-eq-some (store xs i b) (λ ys. some (x ∷ ys)) out e in
    omega (arith, store-Wrote xs i b mid e0, ap length? e1)

store16-Wrote :
    (buf : List ℕ) (i v : ℕ) (out : List ℕ) → store16 buf i v ≡ some out → Wrote buf (i + 1) out
unfolding store16
store16-Wrote buf i v out e =
    let (mid, e0, e1) =
      >>=-eq-some (store buf i (v % 256)) (λ b. store b (i + 1) (v / 256 % 256)) out e in
    omega
      (arith, store-Wrote buf i (v % 256) mid e0, store-Wrote mid (i + 1) (v / 256 % 256) out e1)

store32-Wrote :
    (buf : List ℕ) (i v : ℕ) (out : List ℕ) → store32 buf i v ≡ some out → Wrote buf (i + 3) out
unfolding store32
store32-Wrote buf i v out e =
    let (mid, e0, e1) =
      >>=-eq-some (store16 buf i (v % 65536)) (λ b. store16 b (i + 2) (v / 65536 % 65536)) out e in
    omega (
      arith,
      store16-Wrote buf i (v % 65536) mid e0,
      store16-Wrote mid (i + 2) (v / 65536 % 65536) out e1,
    )

or16-length :
    (buf : List ℕ) (i v : ℕ) (out : List ℕ) → or16 buf i v ≡ some out → length out ≡ length buf
unfolding or16
or16-length buf i v out e =
    let (old, e0, e1) = >>=-eq-some (load16 buf i) (λ o. store16 buf i (bit_or o v)) out e in
    omega (arith, store16-Wrote buf i (bit_or old v) out e1)

mark_response-length : (buf out : List ℕ) → mark_response buf ≡ some out → length out ≡ length buf
unfolding mark_response
mark_response-length buf out e =
    let (b1, e1, r1) =
      >>=-eq-some (or16 buf 2 0x0080) (λ b. or16 b 2 0x8000 >>= λ c. store16 c 6 (swap16 1)) out
        e in
    let (b2, e2, r2) = >>=-eq-some (or16 b1 2 0x8000) (λ c. store16 c 6 (swap16 1)) out r1 in
    omega (
      arith,
      or16-length buf 2 0x0080 b1 e1,
      or16-length b1 2 0x8000 b2 e2,
      store16-Wrote b2 6 (swap16 1) out r2,
    )

put_answer-room :
    (buf : List ℕ) (pos ipv4 : ℕ) (out : List ℕ)
    → put_answer buf pos ipv4 ≡ some out
    → pos + 16 ≤ length buf
unfolding put_answer
put_answer-room buf pos ipv4 out e =
    let (b1, e1, r1) = >>=-eq-some (store buf (pos + 0) 0xc0) _ out e in
    let (b2, e2, r2) = >>=-eq-some (store b1 (pos + 1) 0x0c) _ out r1 in
    let (b3, e3, r3) = >>=-eq-some (store16 b2 (pos + 2) (swap16 type_a)) _ out r2 in
    let (b4, e4, r4) = >>=-eq-some (store16 b3 (pos + 4) (swap16 class_ip)) _ out r3 in
    let (b5, e5, r5) = >>=-eq-some (store16 b4 (pos + 6) (swap16 0x80)) _ out r4 in
    let (b6, e6, r6) = >>=-eq-some (store16 b5 (pos + 10) (swap16 4)) _ out r5 in
    omega (
      arith,
      store-Wrote buf (pos + 0) 0xc0 b1 e1,
      store-Wrote b1 (pos + 1) 0x0c b2 e2,
      store16-Wrote b2 (pos + 2) (swap16 type_a) b3 e3,
      store16-Wrote b3 (pos + 4) (swap16 class_ip) b4 e4,
      store16-Wrote b4 (pos + 6) (swap16 0x80) b5 e5,
      store16-Wrote b5 (pos + 10) (swap16 4) b6 e6,
      store32-Wrote b6 (pos + 12) ipv4 out r6,
    )

-- `write_back` stays inside the buffer only if sixteen bytes are free behind the request.
pub write_back-room :
    (item : Node) (sent : Sent)
    → write_back item ≡ some sent
    → item.datalen + 16 ≤ length (item.request)
unfolding write_back
write_back-room item sent e =
    let (b1, e1, r1) = >>=-eq-some (mark_response (item.request)) _ sent e in
    let (b2, e2, r2) = >>=-eq-some (put_answer b1 (item.datalen) (item.ipv4)) _ sent r1 in
    omega (
      arith,
      mark_response-length (item.request) b1 e1,
      put_answer-room b1 (item.datalen) (item.ipv4) b2 e2,
    )

length-received : (bytes : List ℕ) → length (received bytes) ≡ req_data_len
unfolding received
length-received bytes = omega (
  arith,
  length-take req_data_len (bytes ++ replicate (req_data_len - length bytes) 0),
  length-append bytes (replicate (req_data_len - length bytes) 0),
  length-replicate {A = ℕ} (req_data_len - length bytes) 0,
)

-- For every datagram of more than 2032 bytes that `udp_cb` queues, answering it from any address
-- writes past the buffer of the node.
pub write_back-overflow :
    (fd : ℕ) (d : Datagram) (node : Node) (found : ℕ)
    → udp_cb fd true (some d) ≡ some node
    → 2032 < length d.bytes
    → write_back (record node { ipv4 = found }) ≡ none
unfolding udp_cb
write_back-overflow fd d node found e long =
    elim (Option-cases (write_back (record node { ipv4 = found }))) [
      | inl fault ↦ fault
      | inr (sent, ok) ↦
          absurd (omega (arith, write_back-room (record node { ipv4 = found }) sent ok, lengths))
    ]
  where
    lengths : (node.datalen ≡ length d.bytes) × (length node.request ≡ req_data_len)
    lengths = ground (arith, length-received d.bytes)
