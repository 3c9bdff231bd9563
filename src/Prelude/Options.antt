-- ===== src/Prelude/Options.antt =====
-- Chains of results that may fail.
use mathlib.Core.Path.{◌≡◌, ap}
use mathlib.Core.Option.{Option, none, some}

-- `abbrev`, so that `some a >>= f` computes wherever it stands.
infixl 5 ◌>>=◌
abbrev pub ◌>>=◌ {ℓ κ} : {A : Type ℓ} {B : Type κ} → Option A → (A → Option B) → Option B
none >>= f = none
some a >>= f = f a

-- The first part of a chain, when it is known to succeed.
pub >>=-step {ℓ ℓ' ℓ''} :
    {A : Type ℓ} {B : Type ℓ'} {C : Type ℓ''} (o : Option A) (g : A → Option B) (h : B → Option C)
    {b : B}
    → (o >>= g) ≡ some b
    → (o >>= λ a. g a >>= h) ≡ h b
>>=-step none g h e = cc
>>=-step (some a) g h e = ap (λ r. r >>= h) e
