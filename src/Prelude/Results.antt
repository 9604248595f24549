-- ===== src/Prelude/Results.antt =====
-- Results of code that can throw, with the error a type of the module's own.
use mathlib.Core.Path.{◌≡◌, refl, subst}
use mathlib.Core.Logic.{◌⊎◌, inl, inr}

pub data Result {ℓ κ} (E : Type κ) (A : Type ℓ) : Type (ℓ ⊔ κ) where
  ok : A → Result E A
  err : E → Result E A

infixl 5 ◌>>=◌
abbrev pub ◌>>=◌ {ℓ κ ν} :
    {E : Type κ} {A : Type ℓ} {B : Type ν} → Result E A → (A → Result E B) → Result E B
ok a >>= f = f a
err e >>= f = err e

pub Result-cases {ℓ κ} :
    {E : Type κ} {A : Type ℓ} (r : Result E A) → ((x : E) × (r ≡ err x)) ⊎ ((a : A) × (r ≡ ok a))
Result-cases (ok a) = inr (a, refl)
Result-cases (err x) = inl (x, refl)

-- What holds of the value, if there is one.
abbrev pub AfterOk {ℓ κ ν} : {E : Type κ} {A : Type ℓ} → (A → Type ν) → Result E A → Type ν
AfterOk P (ok a) = P a
AfterOk P (err e) = Unit

module _ {ℓ κ ν} {E : Type κ} {A : Type ℓ} (P : A → Type ν) where
  pub AfterOk-ok : (r : Result E A) (a : A) → AfterOk P r → r ≡ ok a → P a
  AfterOk-ok r a h e = subst (AfterOk {E = E} P) e h

  pub bind-AfterOk {μ} :
      {B : Type μ} (r : Result E B) (f : B → Result E A)
      → ((b : B) → r ≡ ok b → AfterOk P (f b))
      → AfterOk P (r >>= f)
  bind-AfterOk (ok b) f h = h b refl
  bind-AfterOk (err e) f h = tt
