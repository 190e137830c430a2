-- ===== src/Prelude/Results.antt =====
-- A Go call that returns a value and an error, of which exactly one is meaningful.
use mathlib.Core.Path.{◌≡◌, refl}
use mathlib.Core.Logic.{◌⊎◌, inl, inr}

pub data Result {ℓ κ} (E : Type ℓ) (A : Type κ) : Type (ℓ ⊔ κ) where
  ok : A → Result E A
  err : E → Result E A

infixl 5 ◌>>=◌
abbrev pub ◌>>=◌ {ℓ κ μ} :
    {E : Type ℓ} {A : Type κ} {B : Type μ} → Result E A → (A → Result E B) → Result E B
ok a >>= f = f a
err e >>= f = err e

-- The same value under a translated error.
abbrev pub map_err {ℓ κ μ} :
    {E : Type ℓ} {F : Type κ} {A : Type μ} → (E → F) → Result E A → Result F A
map_err f (ok a) = ok a
map_err f (err e) = err (f e)

pub Result-cases {ℓ κ} :
    {E : Type ℓ} {A : Type κ} (r : Result E A) → ((a : A) × (r ≡ ok a)) ⊎ ((e : E) × (r ≡ err e))
Result-cases (ok a) = inl (a, refl)
Result-cases (err e) = inr (e, refl)

-- A chain that returns something ran through its first step.
pub next_step {ℓ κ μ} :
    {E : Type ℓ} {A : Type κ} {B : Type μ} (x : Result E A) (rest : A → Result E B) (b : B)
    → (x >>= rest) ≡ ok b
    → (a : A) × (x ≡ ok a) × (rest a ≡ ok b)
next_step (ok a) rest b h = (a, refl, h)
next_step (err e) rest b h = cc

pub first_step {ℓ κ μ ν} :
    {E : Type ℓ} {G : Type κ} {A : Type μ} {B : Type ν} (t : E → G) (x : Result E A)
    (rest : A → Result G B) (b : B)
    → (map_err t x >>= rest) ≡ ok b
    → (a : A) × (x ≡ ok a) × (rest a ≡ ok b)
first_step t (ok a) rest b h = (a, refl, h)
first_step t (err e) rest b h = cc

pub ok_injective {ℓ κ} :
    {E : Type ℓ} {A : Type κ} {a b : A} → ◌≡◌ {A = Result E A} (ok a) (ok b) → a ≡ b
ok_injective h = cc
