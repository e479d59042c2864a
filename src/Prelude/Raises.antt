-- ===== src/Prelude/Raises.antt =====
-- Steps that may raise: `none` stands for the exception.
use mathlib.Core.Logic.{◌⊎◌, inl, inr}
use mathlib.Core.Option.{Option, none, some}
use mathlib.Core.Path.{◌≡◌, refl}

infixl 5 ◌>>=◌
abbrev pub ◌>>=◌ {ℓ κ} : {A : Type ℓ} {B : Type κ} → Option A → (A → Option B) → Option B
none >>= f = none
some a >>= f = f a

-- A step raises, for a reason, or returns `a`.
abbrev pub Yields {ℓ} : Type 0 → {A : Type ℓ} → Option A → A → Type ℓ
Yields Reason o a = ((o ≡ none) × Reason) ⊎ (o ≡ some a)

pub Yields-bind {ℓ κ} :
    {Reason : Type 0} {A : Type ℓ} {B : Type κ} {o : Option A} {a : A} {b : B} (f : A → Option B)
    → Yields Reason o a
    → Yields Reason (f a) b
    → Yields Reason (o >>= f) b
Yields-bind f (inl (e, why)) h = inl (rw e refl, why)
Yields-bind f (inr e) h = rw e h
