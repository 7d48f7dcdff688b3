-- ===== src/Prelude/Panics.antt =====
-- Results of code that may panic (`unwrap` on `None` or `Err`).
use mathlib.Core.Path.{◌≡◌, refl}

pub data Run {ℓ} (A : Type ℓ) : Type ℓ where
  ok : A → Run A
  panic : Run A

infixl 5 ◌>>=◌
-- a panic skips the rest
abbrev pub ◌>>=◌ {ℓ κ} : {A : Type ℓ} {B : Type κ} → Run A → (A → Run B) → Run B
panic >>= rest = panic
ok value >>= rest = rest value

-- the run ends normally, in a value that satisfies `P`
abbrev pub Returns {ℓ κ} : {A : Type ℓ} → Run A → (A → Type κ) → Type (ℓ ⊔ κ)
Returns {A} run P = (value : A) × (run ≡ ok value) × P value

-- what a run that ends normally went through
pub >>=-eq-ok {ℓ κ} :
    {A : Type ℓ} {B : Type κ} (run : Run A) (rest : A → Run B) {result : B}
    → (run >>= rest) ≡ ok result
    → (value : A) × (run ≡ ok value) × (rest value ≡ ok result)
>>=-eq-ok panic rest ends = cc
>>=-eq-ok (ok value) rest ends = (value, refl, ends)

pub ok-injective {ℓ} : {A : Type ℓ} {a b : A} → ok a ≡ ok b → a ≡ b
ok-injective h = cc
