-- ===== src/Forward/Scan.antt =====
-- net_forward.c, `net_forward_module_inside_parse_response`: the whole scan of a response.
use mathlib.Core.Path.{subst}
use simp_dserver.Prelude.{
  ℕ, suc, ◌+◌, ◌-◌, ◌*◌, ◌≤◌, ◌<◌, ◌≡◌, ◌≢◌, refl, ap, ap₂, ◌∙◌, none, some, false, List, [], ◌∷◌,
  ◌++◌, arith, length, length-append, append_assoc, leb,
}
use simp_dserver.Work.Name.{At}
use simp_dserver.Bundle.Response.{be16}
use simp_dserver.Forward.{address, next, take_data, take_record, scan}
use simp_dserver.Forward.Records.{
  Answer, IsAnswer, wire, wires, ArePassed, At-drop, take_record-At, take_data-next,
  take_data-address,
}

-- A record followed by anything, with its parts laid open.
wire-append :
    (r : Answer) (tail : List ℕ)
    → wire r ++ tail ≡ r.name ++ (r.fixed ++ (be16 (length (r.rdata)) ++ (r.rdata ++ tail)))
wire-append r tail =
    append_assoc (r.name) (r.fixed ++ (be16 (length (r.rdata)) ++ r.rdata)) tail
    ∙ ap (λ xs. r.name ++ xs) (append_assoc (r.fixed) (be16 (length (r.rdata)) ++ r.rdata) tail)

length-wire :
    (r : Answer) → length (wire r) ≡ length (r.name) + length (r.fixed) + 2 + length (r.rdata)
length-wire r = omega (
  arith,
  length-append (r.name) (r.fixed ++ (be16 (length (r.rdata)) ++ r.rdata)),
  length-append (r.fixed) (be16 (length (r.rdata)) ++ r.rdata),
)

module _ (r : Answer) (tail : List ℕ) {buff : List ℕ} {pos : ℕ} (good : IsAnswer r)
    (at : At buff pos (wire r ++ tail)) where
  open_at : At buff pos (r.name ++ (r.fixed ++ (be16 (length (r.rdata)) ++ (r.rdata ++ tail))))
  open_at = subst (At buff pos) (wire-append r tail) at

  data_at :
      At buff
        (pos + length (r.name) + length (r.fixed))
        (be16 (length (r.rdata)) ++ (r.rdata ++ tail))
  data_at = At-drop (r.fixed) (At-drop (r.name) open_at)

  to_data : take_record buff pos ≡ take_data buff (pos + length (r.name) + length (r.fixed))
  to_data =
      take_record-At (r.name) (r.fixed) (be16 (length (r.rdata)) ++ (r.rdata ++ tail)) good.0 good.1
        open_at

  take_record-next :
      length (r.rdata) ≢ 4 → take_record buff pos ≡ some (next (pos + length (wire r)))
  take_record-next ne =
      to_data
      ∙ take_data-next (length (r.rdata)) good.2 ne data_at
      ∙ ap (λ p. some (next p)) (omega (arith, length-wire r))

  take_record-address :
      (a b c d : ℕ)
      → r.rdata ≡ a ∷ b ∷ c ∷ d ∷ []
      → take_record buff pos ≡ some (address (a + 256 * b + 65536 * (c + 256 * d)))
  take_record-address a b c d e =
      to_data
      ∙ take_data-address a b c d {rest = tail} (
          subst
            (λ xs.
              At buff (pos + length (r.name) + length (r.fixed)) (be16 (length xs) ++ (xs ++ tail)))
            e data_at)

not_reached : (bufflen pos : ℕ) → pos < bufflen → leb bufflen pos ≡ false
not_reached bufflen pos h = ground arith

-- The loop passes the records whose data is not four bytes long.
scan-skip :
    (rs : List Answer) (tail : List ℕ) (fuel bufflen : ℕ) {buff : List ℕ} {pos : ℕ}
    → ArePassed rs
    → At buff pos (wires rs ++ tail)
    → pos + length (wires rs) ≤ bufflen
    → (scan (length rs + fuel) buff bufflen pos ≡ scan fuel buff bufflen (pos + length (wires rs)))
      × At buff (pos + length (wires rs)) tail
unfolding scan
scan-skip [] tail fuel bufflen {buff} {pos} passed at fits = (
  ap₂ (λ n p. scan n buff bufflen p) {x = 0 + fuel} {y = fuel} (omega arith) (omega arith),
  subst (λ p. At buff p tail) (omega arith) at,
)
scan-skip (r ∷ rs) tail fuel bufflen {buff} {pos} passed at fits =
    let at_r : At buff pos (wire r ++ (wires rs ++ tail)) =
      subst (At buff pos) (append_assoc (wire r) (wires rs) tail) at in
    let (run, there) =
      scan-skip rs tail fuel bufflen {pos = pos + length (wire r)} passed.2 (At-drop (wire r) at_r)
        (omega (arith, length-append (wire r) (wires rs))) in
    let shift : pos + length (wire r) + length (wires rs) ≡ pos + length (wire r ++ wires rs) =
      omega (arith, length-append (wire r) (wires rs)) in
    (
      ap (λ n. scan n buff bufflen pos) {x = length (r ∷ rs) + fuel} {y = suc (length rs + fuel)}
            (omega arith)
          ∙ rw
              (
                not_reached bufflen pos
                    (omega (arith, length-wire r, length-append (wire r) (wires rs))),
                take_record-next r (wires rs ++ tail) passed.0 at_r passed.1,
              )
              (run ∙ ap (scan fuel buff bufflen) shift),
      subst (λ p. At buff p tail) shift there,
    )

-- Where a response has records with data of other lengths than four bytes, and then one with the
-- four bytes of an address, the scan gives this address; the names are pointers or plain names that
-- end with a zero. The fuel is above the number of the records passed.
pub scan-first_address :
    (rs : List Answer) (r : Answer) (rest : List ℕ) (a b c d fuel bufflen : ℕ) (buff : List ℕ)
    (pos : ℕ)
    → ArePassed rs
    → IsAnswer r
    → r.rdata ≡ a ∷ b ∷ c ∷ d ∷ []
    → At buff pos (wires rs ++ (wire r ++ rest))
    → pos + length (wires rs) < bufflen
    → length rs < fuel
    → scan fuel buff bufflen pos ≡ some (some (a + 256 * b + 65536 * (c + 256 * d)))
unfolding scan
scan-first_address rs r rest a b c d fuel bufflen buff pos passed good e at inside enough =
    let (run, there) =
      scan-skip rs (wire r ++ rest) (suc (fuel - length rs - 1)) bufflen passed at (omega arith) in
    ap (λ n. scan n buff bufflen pos) (omega arith)
    ∙ run
    ∙ rw
        (
          not_reached bufflen (pos + length (wires rs)) inside,
          take_record-address r rest good there a b c d e,
        )
        refl

-- Where a response ends behind records that have data of other lengths than four bytes, and the
-- name of each is a pointer, or ends with its only zero byte and does not begin like a pointer
-- (labels that end in a pointer are excluded), the scan gives no address. The fuel is above the
-- number of the records.
pub scan-no_address :
    (rs : List Answer) (rest : List ℕ) (fuel : ℕ) (buff : List ℕ) (pos : ℕ)
    → ArePassed rs
    → At buff pos (wires rs ++ rest)
    → length rs < fuel
    → scan fuel buff (pos + length (wires rs)) pos ≡ some none
unfolding scan
scan-no_address rs rest fuel buff pos passed at enough =
    let (run, there) =
      scan-skip rs rest (suc (fuel - length rs - 1)) (pos + length (wires rs)) passed at
        (omega arith) in
    ap (λ n. scan n buff (pos + length (wires rs)) pos) (omega arith) ∙ run ∙ ground arith
