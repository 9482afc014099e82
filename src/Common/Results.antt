-- ===== src/Common/Results.antt =====
-- Fallible code: a value, or the error that is thrown.
use mathlib.Core.Path.{◌≡◌, refl}
use mathlib.Core.Logic.{◌⊎◌, inl, inr}

-- `E` is the type of what a part of the program throws.
pub data Result {ℓ} (E : Type 0) (A : Type ℓ) : Type ℓ where
  ok : A → Result E A
  err : E → Result E A

module _ {E : Type 0} where
  infixl 5 ◌>>=◌ ◌>>◌
  -- An error ends the chain.
  abbrev pub ◌>>=◌ {ℓ κ} : {A : Type ℓ} {B : Type κ} → Result E A → (A → Result E B) → Result E B
  ◌>>=◌ (err thrown) next = err thrown
  ◌>>=◌ (ok value) next = next value

  abbrev pub ◌>>◌ {ℓ} : {B : Type ℓ} → Result E (Unit {0}) → Result E B → Result E B
  check >> next = check >>= (λ done. next)

  pub Result-cases {ℓ} :
      {A : Type ℓ} (r : Result E A) → ((e : E) × (r ≡ err e)) ⊎ ((a : A) × (r ≡ ok a))
  Result-cases (ok value) = inr (value, refl)
  Result-cases (err thrown) = inl (thrown, refl)

  -- A chain that succeeds has succeeded at its first link.
  pub >>=-eq-ok {ℓ κ} :
      {A : Type ℓ} {B : Type κ} (first : Result E A) (next : A → Result E B) {result : B}
      → (first >>= next) ≡ ok result
      → (value : A) × (first ≡ ok value) × (next value ≡ ok result)
  >>=-eq-ok (err thrown) next h = cc
  >>=-eq-ok (ok value) next h = (value, refl, h)

pub ok_inj : {E A : Type 0} {a b : A} → ◌≡◌ {A = Result E A} (ok a) (ok b) → a ≡ b
ok_inj h = cc

pub err_inj : {E A : Type 0} {a b : E} → ◌≡◌ {A = Result E A} (err a) (err b) → a ≡ b
err_inj h = cc

pub err_is_not_ok : {E A : Type 0} {e : E} {a : A} → ¬ (◌≡◌ {A = Result E A} (err e) (ok a))
err_is_not_ok h = cc
