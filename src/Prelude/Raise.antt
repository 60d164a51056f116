-- ===== src/Prelude/Raise.antt =====
-- A call that returns a value or raises.
use mathlib.Core.Path.{◌≡◌, refl}
use mathlib.Core.Logic.{◌⊎◌, inl, inr}
use mathlib.Core.Bool.{Bool}
use nexus_trade_engine.Prelude.Tests.{if◌then◌else◌}

-- `err e` is a raised exception `e`.
pub data Outcome {ℓ} (E : Type ℓ) (A : Type ℓ) : Type ℓ where
  ok : A → Outcome E A
  err : E → Outcome E A

infixl 5 ◌>>=◌ ◌>>◌
abbrev pub ◌>>=◌ {ℓ} : {E A B : Type ℓ} → Outcome E A → (A → Outcome E B) → Outcome E B
ok a >>= f = f a
err e >>= f = err e

abbrev pub ◌>>◌ {ℓ} : {E B : Type ℓ} → Outcome E (Unit {ℓ}) → Outcome E B → Outcome E B
m >> k = m >>= λ _. k

-- `if test: raise e`
abbrev pub raise_if {ℓ} : {E : Type ℓ} → Bool → E → Outcome E (Unit {ℓ})
raise_if test e = if test then err e else ok tt

pub >>=-eq-ok {ℓ} :
    {E A B : Type ℓ} (call : Outcome E A) (next : A → Outcome E B) {result : B}
    → (call >>= next) ≡ ok result
    → (value : A) × (call ≡ ok value) × (next value ≡ ok result)
>>=-eq-ok (ok value) next h = (value, refl, h)
>>=-eq-ok (err raised) next h = cc

pub Outcome-cases {ℓ} :
    {E A : Type ℓ} (call : Outcome E A) → ((a : A) × (call ≡ ok a)) ⊎ ((e : E) × (call ≡ err e))
Outcome-cases (ok a) = inl (a, refl)
Outcome-cases (err e) = inr (e, refl)
