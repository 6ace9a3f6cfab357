-- ===== src/Db/Outcome.antt =====
-- A promise: it is fulfilled with a value or rejected with a message.
use solounlucky.Prelude.{◌≡◌, refl, ap, ◌⊎◌, inl, inr, Text}

pub data Outcome {ℓ} (A : Type ℓ) : Type ℓ where
  returned : A → Outcome A
  thrown : Text → Outcome A

infixl 5 ◌>>=◌
abbrev pub ◌>>=◌ {ℓ κ} : {A : Type ℓ} {B : Type κ} → Outcome A → (A → Outcome B) → Outcome B
returned a >>= f = f a
thrown e >>= f = thrown e

infixl 5 ◌>>◌
abbrev pub ◌>>◌ {ℓ} : {B : Type ℓ} → Outcome (Unit {0}) → Outcome B → Outcome B
m >> k = m >>= λ _. k

pub Outcome-cases {ℓ} :
    {A : Type ℓ} (o : Outcome A) → ((a : A) × (o ≡ returned a)) ⊎ ((e : Text) × (o ≡ thrown e))
Outcome-cases (returned a) = inl (a, refl)
Outcome-cases (thrown e) = inr (e, refl)

pub returned-injective {ℓ} : {A : Type ℓ} {a b : A} → returned a ≡ returned b → a ≡ b
returned-injective {a} h = ap (λ o. elim o [ returned x ↦ x | thrown e ↦ a ]) h

pub >>=-eq-returned {ℓ κ} :
    {A : Type ℓ} {B : Type κ} (m : Outcome A) (f : A → Outcome B) {b : B}
    → (m >>= f) ≡ returned b
    → (a : A) × (m ≡ returned a) × (f a ≡ returned b)
>>=-eq-returned (returned a) f h = (a, refl, h)
>>=-eq-returned (thrown e) f h = cc
