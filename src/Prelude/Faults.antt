-- ===== src/Prelude/Faults.antt =====
-- Steps that may fault: `none` is a read or write outside its buffer.
use mathlib.Core.Path.{◌≡◌, refl}
use mathlib.Core.Option.{Option, none, some}
use mathlib.Core.List.{List, [], ◌∷◌}
use Prim.Native.Nat.{ℕ, zero, suc}

infixl 5 ◌>>=◌
abbrev pub ◌>>=◌ {ℓ κ} : {A : Type ℓ} {B : Type κ} → Option A → (A → Option B) → Option B
none >>= f = none
some a >>= f = f a

abbrev pub pure {ℓ} : {A : Type ℓ} → A → Option A
pure = some

-- A write of one byte: a fault outside the buffer.
unfoldable pub store : List ℕ → ℕ → ℕ → Option (List ℕ)
store [] i b = none
store (x ∷ xs) zero b = some (b ∷ xs)
store (x ∷ xs) (suc i) b = store xs i b >>= λ ys. some (x ∷ ys)

-- The rest of a chain may be replaced by one that is equal at every value.
pub >>=-congr {ℓ κ} :
    {A : Type ℓ} {B : Type κ} (o : Option A) (f g : A → Option B)
    → ((a : A) → f a ≡ g a)
    → (o >>= f) ≡ (o >>= g)
>>=-congr none f g same = refl
>>=-congr (some a) f g same = same a

-- A chain that succeeds has succeeded at its first step.
pub >>=-eq-some {ℓ κ} :
    {A : Type ℓ} {B : Type κ} (o : Option A) (f : A → Option B) (out : B)
    → (o >>= f) ≡ some out
    → (mid : A) × (o ≡ some mid) × (f mid ≡ some out)
>>=-eq-some none f out e = cc
>>=-eq-some (some mid) f out e = (mid, refl, e)
