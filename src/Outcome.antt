-- ===== src/Outcome.antt =====
-- src/err.rs, and how a Rust call ends: with a value, with an `Err`, or with a panic. A loop that is
-- modelled with fuel has a fourth end, `no_fuel`, which the termination theorems exclude.
use notatin.Base.{◌≡◌, ◌⊎◌, inl, inr, refl, String, Option, none, some}

-- The variants that the modelled code builds; `detail` is the text of the variant.
pub data Error : Type 0 where
  nom_error : Error
  conversion : Error
  winstructs : Error
  buffer : String → Error
  any : String → Error

pub data Outcome {ℓ} (A : Type ℓ) : Type ℓ where
  ok : A → Outcome A
  err : Error → Outcome A
  panic : Outcome A
  no_fuel : Outcome A

infixl 5 ◌>>=◌ ◌>>◌
-- The `?` operator.
abbrev pub ◌>>=◌ {ℓ κ} : {A : Type ℓ} {B : Type κ} → Outcome A → (A → Outcome B) → Outcome B
ok a >>= f = f a
err e >>= f = err e
panic >>= f = panic
no_fuel >>= f = no_fuel

abbrev pub ◌>>◌ {ℓ} : {B : Type ℓ} → Outcome (Unit {0}) → Outcome B → Outcome B
m >> k = m >>= λ _. k

-- `ok_or_else`.
abbrev pub ok_or {ℓ} : {A : Type ℓ} → Option A → Error → Outcome A
ok_or none e = err e
ok_or (some a) e = ok a

-- `expect`, `unwrap` and an index that Rust checks.
abbrev pub expect {ℓ} : {A : Type ℓ} → Option A → Outcome A
expect none = panic
expect (some a) = ok a

-- A chain that ends with a value had a value on the way.
module _ {ℓ κ} {A : Type ℓ} {B : Type κ} where
  pub >>=-eq-ok :
      (first : Outcome A) (next : A → Outcome B) {b : B}
      → (first >>= next) ≡ ok b
      → (a : A) × (first ≡ ok a) × (next a ≡ ok b)
  >>=-eq-ok no_fuel next e = cc
  >>=-eq-ok panic next e = cc
  >>=-eq-ok (err detail) next e = cc
  >>=-eq-ok (ok a) next e = (a, refl, e)

pub ok_injective {ℓ} : {A : Type ℓ} {a b : A} → ok a ≡ ok b → a ≡ b
ok_injective e = cc

module _ {ℓ} {A : Type ℓ} where
  pub Outcome-cases :
      (o : Outcome A)
      → ((a : A) × (o ≡ ok a)) ⊎ ((e : Error) × (o ≡ err e)) ⊎ (o ≡ panic) ⊎ (o ≡ no_fuel)
  Outcome-cases (ok a) = inl (a, refl)
  Outcome-cases (err e) = inr (inl (e, refl))
  Outcome-cases panic = inr (inr (inl refl))
  Outcome-cases no_fuel = inr (inr (inr refl))

  pub panic_is_no_value : {a : A} → panic ≡ ok a → ⊥
  panic_is_no_value e = cc

  pub no_fuel_is_no_value : {a : A} → no_fuel ≡ ok a → ⊥
  no_fuel_is_no_value e = cc
