-- ===== src/Pipeline/Safe.antt =====
-- The ownership of nodes: whatever the order in which the callbacks and the rounds of the threads
-- run, no node is in two places, and none that is freed is in a place. A callback or a round is one
-- step; the rings' own steps are not interleaved here.
pub mod Reach
pub mod Rounds
pub mod Upstream
use mathlib.Core.Path.{subst}
use simp_dserver.Prelude.{
  one_if, ℕ, zero, suc, ◌+◌, ◌≡◌, ◌≢◌, refl, sym, ap, ◌∙◌, arith, ◌⊎◌, inl, inr, Bool, Option, none,
  some, List, [], ◌∷◌, ◌++◌, ◌==◌, if◌then◌else◌,
}
use simp_dserver.Message.{Node}
use simp_dserver.Ring.{Ring}
use simp_dserver.Ring.Inv.{IsValid, contents}
use simp_dserver.Hashmap.Memory.{Ptr, update}
use simp_dserver.Forward.{Server}
use simp_dserver.Forward.Effects.{Without, at_head, behind}
use simp_dserver.Bundle.{Datagram}
use simp_dserver.Pipeline.{System, receive, work_round, forward_round, respond, bundle_round}
use simp_dserver.Pipeline.Owned.{Owned, OneMore, count, count-append, put-Owned, eq_cases}

-- The places of nodes by number: the three rings, then the lists of waiting nodes.
abbrev pub places : (requests inbox outbox : List Ptr) → (ℕ → List Ptr) → ℕ → List Ptr
places a b c w zero = a
places a b c w (suc zero) = b
places a b c w (suc (suc zero)) = c
places a b c w (suc (suc (suc h))) = w h

-- Valid rings, and every node in one place at most, and allocated there.
pub record IsSafe (y : System) : Type 0 where
  pub requests_IsValid : IsValid y.requests
  pub inbox_IsValid : IsValid y.server.inbox
  pub outbox_IsValid : IsValid y.server.outbox
  pub owned : Owned y.server.nodes (
      places
        (contents y.requests)
        (contents y.server.inbox)
        (contents y.server.outbox)
        y.server.pending)

-- What may happen next: a datagram from a client, for which `malloc` gives memory that is not in
-- use, a round of one of the three threads, or a datagram from upstream.
pub data Step (y y' : System) : Type 0 where
  receives :
      (fuel : ℕ) (fresh : Ptr) (fd : ℕ) (readable : Bool) (arrived : Option Datagram)
      → y.server.nodes fresh ≡ none
      → receive (suc fuel) fresh fd readable arrived y ≡ some y'
      → Step y y'
  works : (fuel : ℕ) → work_round (suc fuel) y ≡ some y' → Step y y'
  forwards : (fuel : ℕ) → forward_round (suc fuel) y ≡ some y' → Step y y'
  responds :
      (fuel : ℕ) (fresh : Ptr) (stale : List ℕ) (readable : Bool) (datagram : List ℕ)
      → respond (suc fuel) fresh stale readable datagram y ≡ some y'
      → Step y y'
  answers : (fuel : ℕ) → bundle_round (suc fuel) y ≡ some y' → Step y y'

pub data Reaches (y : System) : System → Type 0 where
  stop : Reaches y y
  next : {mid y' : System} → Reaches y mid → Step mid y' → Reaches y y'

-- A list that gains a pointer at a place, and the others.
module _ {a b c : List Ptr} {w : ℕ → List Ptr} {p : Ptr} where
  pub in_requests :
      {a' : List Ptr}
      → ((x : Ptr) → count x a' ≡ one_if x p + count x a)
      → OneMore 0 p (places a b c w) (places a' b c w)
  in_requests {a'} more = record { here = more; others = others }
    where
      others : (j : ℕ) → j ≢ 0 → places a' b c w j ≡ places a b c w j
      others zero ne = absurd (ne refl)
      others (suc zero) ne = refl
      others (suc (suc zero)) ne = refl
      others (suc (suc (suc h))) ne = refl

  pub in_inbox :
      {b' : List Ptr}
      → ((x : Ptr) → count x b' ≡ one_if x p + count x b)
      → OneMore 1 p (places a b c w) (places a b' c w)
  in_inbox {b'} more = record { here = more; others = others }
    where
      others : (j : ℕ) → j ≢ 1 → places a b' c w j ≡ places a b c w j
      others zero ne = refl
      others (suc zero) ne = absurd (ne refl)
      others (suc (suc zero)) ne = refl
      others (suc (suc (suc h))) ne = refl

  pub in_outbox :
      {c' : List Ptr}
      → ((x : Ptr) → count x c' ≡ one_if x p + count x c)
      → OneMore 2 p (places a b c w) (places a b c' w)
  in_outbox {c'} more = record { here = more; others = others }
    where
      others : (j : ℕ) → j ≢ 2 → places a b c' w j ≡ places a b c w j
      others zero ne = refl
      others (suc zero) ne = refl
      others (suc (suc zero)) ne = absurd (ne refl)
      others (suc (suc (suc h))) ne = refl

  pub waiting :
      {w' : ℕ → List Ptr} (h : ℕ)
      → ((x : Ptr) → count x (w' h) ≡ one_if x p + count x (w h))
      → ((j : ℕ) → j ≢ h → w' j ≡ w j)
      → OneMore (suc (suc (suc h))) p (places a b c w) (places a b c w')
  waiting {w'} h more same = record { here = more; others = others }
    where
      others : (j : ℕ) → j ≢ suc (suc (suc h)) → places a b c w' j ≡ places a b c w j
      others zero ne = refl
      others (suc zero) ne = refl
      others (suc (suc zero)) ne = refl
      others (suc (suc (suc j))) ne = same j (λ e. ne (ap (λ k. suc (suc (suc k))) e))

pub appended :
    (p : Ptr) (ps : List Ptr) (x : Ptr) → count x (ps ++ (p ∷ [])) ≡ one_if x p + count x ps
appended p ps x = count-append x p ps

pub headed :
    (p : Ptr) (ps : List Ptr) {all : List Ptr}
    → all ≡ p ∷ ps
    → (x : Ptr) → count x all ≡ one_if x p + count x ps
headed p ps e x = ap (count x) e

pub removed :
    {p : Ptr} {ps rest : List Ptr}
    → Without p ps rest
    → (x : Ptr) → count x ps ≡ one_if x p + count x rest
removed at_head x = refl
removed (behind {q} w) x = omega (arith, removed w x)

-- After an enqueue the pointer is last in the ring, or still in no place.
pub enqueued-Owned :
    {nodes : Ptr → Option Node} {p : Ptr} (q q' : List Ptr) (i : ℕ)
    (lists : List Ptr → ℕ → List Ptr)
    → ((q q' : List Ptr)
        → ((x : Ptr) → count x q' ≡ one_if x p + count x q)
        → OneMore i p (lists q) (lists q'))
    → (o : Owned nodes (lists q)) → o.place p ≡ 0
    → nodes p ≢ none
    → (q' ≡ q) ⊎ (q' ≡ q ++ (p ∷ []))
    → Owned nodes (lists q')
enqueued-Owned {nodes} {p} q q' i lists at o loose there cases = elim cases [
  | inl same ↦ subst (λ l. Owned nodes (lists l)) (sym same) o
  | inr last ↦
      subst (λ l. Owned nodes (lists l)) (sym last)
        (put-Owned o i p loose there (at q (q ++ (p ∷ [])) (appended p q)))
]
