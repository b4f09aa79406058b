-- ===== src/Forward/Records.antt =====
-- net_forward.c, `net_forward_module_inside_parse_response`: the scan of the answer records, against
-- records as the standard lays them out (RFC 1035, 4.1.3).
use mathlib.Core.Path.{subst}
use simp_dserver.Prelude.{
  ℕ, zero, suc, ◌+◌, ◌*◌, ◌/◌, ◌%◌, ◌≤◌, ◌<◌, ◌≡◌, ◌≢◌, refl, ap, true, false, some, List, [], ◌∷◌,
  ◌++◌, arith, length, length-append, append_assoc, get_elem?,
}
use simp_dserver.Message.{load16, load_be16, load32, swap16}
use simp_dserver.Work.Name.{At, At-head, At-tail}
use simp_dserver.Bundle.Response.{be16}
use simp_dserver.Forward.{is_deflate, skip_name, address, next, take_data, take_record}

abbrev pub NonZero : List ℕ → Type 0
NonZero [] = Unit
NonZero (c ∷ cs) = (0 < c) × NonZero cs

abbrev pub lead : List ℕ → ℕ
lead [] = 0
lead (c ∷ cs) = c

-- A name that the scan can pass: a pointer, or bytes up to a zero that do not start as one.
pub data IsName : List ℕ → Type 0 where
  pointer : (b c : ℕ) → is_deflate b ≡ true → IsName (b ∷ c ∷ [])
  plain : (cs : List ℕ) → NonZero cs → is_deflate (lead cs) ≡ false → IsName (cs ++ (0 ∷ []))

-- An answer record: `fixed` is the type, the class and the time to live.
pub record Answer : Type 0 where
  pub name : List ℕ
  pub fixed : List ℕ
  pub rdata : List ℕ

abbrev pub IsAnswer : Answer → Type 0
IsAnswer r = IsName (r.name) × (length (r.fixed) ≡ 8) × (length (r.rdata) < 65536)

abbrev pub wire : Answer → List ℕ
wire r = r.name ++ (r.fixed ++ (be16 (length (r.rdata)) ++ r.rdata))

abbrev pub wires : List Answer → List ℕ
wires [] = []
wires (r ∷ rs) = wire r ++ wires rs

-- Records whose data is not four bytes long.
abbrev pub ArePassed : List Answer → Type 0
ArePassed [] = Unit
ArePassed (r ∷ rs) = IsAnswer r × (length (r.rdata) ≢ 4) × ArePassed rs

pub At-drop :
    (xs : List ℕ) {ys buf : List ℕ} {pos : ℕ} → At buf pos (xs ++ ys) → At buf (pos + length xs) ys
At-drop [] {ys} {buf} {pos} a = subst (λ p. At buf p ys) (omega arith) a
At-drop (x ∷ xs) {ys} {buf} {pos} a =
    subst (λ p. At buf p ys) {x = pos + 1 + length xs} {y = pos + suc (length xs)} (omega arith)
      (At-drop xs (At-tail a))

module _ {buf : List ℕ} {pos : ℕ} where
  pub load16-At :
      (a b : ℕ) {rest : List ℕ} → At buf pos (a ∷ b ∷ rest) → load16 buf pos ≡ some (a + 256 * b)
  unfolding load16
  load16-At a b at = rw (At-head at, At-head (At-tail at)) refl

  load_be16-At :
      (k : ℕ) {rest : List ℕ} → k < 65536 → At buf pos (be16 k ++ rest) → load_be16 buf pos ≡ some k
  unfolding load_be16 swap16
  load_be16-At k small at = rw (load16-At (k / 256) (k % 256) at) (ap some (omega arith))

load32-At :
    (a b c d : ℕ) {rest buf : List ℕ} {pos : ℕ}
    → At buf pos (a ∷ b ∷ c ∷ d ∷ rest)
    → load32 buf pos ≡ some (a + 256 * b + 65536 * (c + 256 * d))
unfolding load32
load32-At a b c d {rest} {buf} {pos} at =
    let high : At buf (pos + 2) (c ∷ d ∷ rest) = At-drop (a ∷ b ∷ []) at in
    rw (load16-At a b at, load16-At c d high) refl

pub take_data-next :
    (k : ℕ) {rest buf : List ℕ} {pos : ℕ}
    → k < 65536
    → k ≢ 4
    → At buf pos (be16 k ++ rest)
    → take_data buf pos ≡ some (next (pos + (k + 2)))
unfolding take_data
take_data-next k small ne at = rw (load_be16-At k small at) (ground arith)

pub take_data-address :
    (a b c d : ℕ) {rest buf : List ℕ} {pos : ℕ}
    → At buf pos (be16 4 ++ (a ∷ b ∷ c ∷ d ∷ rest))
    → take_data buf pos ≡ some (address (a + 256 * b + 65536 * (c + 256 * d)))
unfolding take_data
take_data-address a b c d {rest} {buf} {pos} at =
    let data_at : At buf (pos + 2) (a ∷ b ∷ c ∷ d ∷ rest) = At-drop (be16 4) at in
    rw (load_be16-At 4 (omega arith) at, load32-At a b c d data_at) refl

skip_name-At :
    (cs rest : List ℕ) (fuel : ℕ) {buf : List ℕ} {pos : ℕ}
    → NonZero cs
    → At buf pos (cs ++ (0 ∷ rest))
    → length cs < fuel
    → skip_name fuel buf pos ≡ some (pos + length cs + 1)
unfolding skip_name
skip_name-At cs rest zero nz at enough = absurd (omega arith)
skip_name-At [] rest (suc f) nz at enough = rw (At-head at) (ap some (omega arith))
skip_name-At (c ∷ cs) rest (suc f) {buf} {pos} nz at enough =
    let run = skip_name-At cs rest f {pos = pos + 1} (nz.1) (At-tail at) (omega arith) in
    rw (At-head at) (ground (arith, run))

At-length : (bytes : List ℕ) {buf : List ℕ} {pos : ℕ} → At buf pos bytes → length bytes ≤ length buf
At-length bytes a = omega (
  arith,
  ap length a.split,
  length-append a.before (bytes ++ a.after),
  length-append bytes a.after,
)

At-lead :
    (cs rest : List ℕ) {buf : List ℕ} {pos : ℕ}
    → At buf pos (cs ++ (0 ∷ rest))
    → get_elem? buf pos ≡ some (lead cs)
At-lead [] rest at = At-head at
At-lead (c ∷ cs) rest at = At-head at

-- A record leads to its data.
pub take_record-At :
    (name fixed tail : List ℕ) {buf : List ℕ} {pos : ℕ}
    → IsName name
    → length fixed ≡ 8
    → At buf pos (name ++ (fixed ++ tail))
    → take_record buf pos ≡ take_data buf (pos + length name + length fixed)
unfolding take_record
take_record-At name fixed tail {buf} {pos} (pointer b c deflate) eight at =
    rw (At-head at, deflate) (ap (take_data buf) (omega arith))
take_record-At name fixed tail {buf} {pos} (plain cs nz not_deflate) eight at =
    let flat : At buf pos (cs ++ (0 ∷ (fixed ++ tail))) =
      subst (At buf pos) (append_assoc cs (0 ∷ []) (fixed ++ tail)) at in
    rw
      (
        At-lead cs (fixed ++ tail) flat,
        not_deflate,
        skip_name-At cs (fixed ++ tail) (suc (length buf)) nz flat (
            omega (
              arith,
              At-length (cs ++ (0 ∷ (fixed ++ tail))) flat,
              length-append cs (0 ∷ (fixed ++ tail)),
            )),
      )
      (ap (take_data buf) (omega (arith, length-append cs (0 ∷ []))))
