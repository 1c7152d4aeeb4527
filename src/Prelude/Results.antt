-- ===== src/Prelude/Results.antt =====
-- A value or the error that was thrown.
use mathlib.Core.Path.{◌≡◌, refl}
use mathlib.Core.Bool.{Bool, true, false}

module _ {ℓ κ} where
  pub data Result (E : Type ℓ) (A : Type κ) : Type (ℓ ⊔ κ) where
    ok : A → Result E A
    err : E → Result E A

infixl 5 ◌>>=◌ ◌>>◌
abbrev pub ◌>>=◌ {ℓ κ ι} :
    {E : Type ℓ} {A : Type κ} {B : Type ι} → Result E A → (A → Result E B) → Result E B
ok a >>= f = f a
err e >>= f = err e

abbrev pub ◌>>◌ {ℓ ι} : {E : Type ℓ} {B : Type ι} → Result E (Unit {0}) → Result E B → Result E B
m >> k = m >>= λ _. k

-- `if (!test) throw error`.
abbrev pub guard {ℓ} : {E : Type ℓ} → Bool → E → Result E (Unit {0})
guard true e = ok tt
guard false e = err e

-- A chain that succeeds has succeeded at its first part.
pub >>=-eq-ok {ℓ κ ι} :
    {E : Type ℓ} {A : Type κ} {B : Type ι} (first : Result E A) (next : A → Result E B) {end : B}
    → first >>= next ≡ ok end
    → (x : A) × (first ≡ ok x) × (next x ≡ ok end)
>>=-eq-ok (err e) next p = cc
>>=-eq-ok (ok x) next p = (x, refl, p)

pub ok-injective {ℓ κ} :
    {E : Type ℓ} {A : Type κ} {a b : A} → ◌≡◌ {A = Result E A} (ok a) (ok b) → a ≡ b
ok-injective h = cc
