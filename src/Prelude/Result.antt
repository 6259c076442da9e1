-- ===== src/Prelude/Result.antt =====
-- Results with an error type of the component's own.
use mathlib.Core.Path.{◌≡◌, refl}
use mathlib.Core.Logic.{◌⊎◌, inl, inr}

pub data Result {ℓ κ} (E : Type κ) (A : Type ℓ) : Type (ℓ ⊔ κ) where
  ok : A → Result E A
  err : E → Result E A

-- The result of an operation that returns only an error.
abbrev pub Done : Type 0
Done = Unit {0}

pub Result-cases {ℓ κ} :
    {E : Type κ} {A : Type ℓ} (r : Result E A) → ((e : E) × (r ≡ err e)) ⊎ ((a : A) × (r ≡ ok a))
Result-cases (ok a) = inr (a, refl)
Result-cases (err e) = inl (e, refl)

pub ok_inj {ℓ κ} : {E : Type κ} {A : Type ℓ} {a b : A} → ◌≡◌ {A = Result E A} (ok a) (ok b) → a ≡ b
ok_inj e = cc

-- A step that succeeds did so in both of its parts.
pub chain_ok {ℓ κ μ} :
    {E : Type κ} {A : Type ℓ} {B : Type μ} (r : Result E A) (g : A → Result E B) (b : B)
    → elim r as (λ x. Result E B) [ err e ↦ err e | ok a ↦ g a ] ≡ ok b
    → (a : A) × (r ≡ ok a) × (g a ≡ ok b)
chain_ok (ok a) g b h = (a, refl, h)
chain_ok (err e) g b h = cc
