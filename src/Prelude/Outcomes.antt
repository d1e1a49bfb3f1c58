-- ===== src/Prelude/Outcomes.antt =====
-- Functions that may raise: what they return, or the exception.
use mathlib.Core.Path.{◌≡◌, refl}

pub data Outcome {ℓ} (E : Type 0) (T : Type ℓ) : Type ℓ where
  ok : T → Outcome E T
  err : E → Outcome E T

infixl 5 ◌>>=◌
abbrev pub ◌>>=◌ {ℓ κ} :
    {E : Type 0} {S : Type ℓ} {T : Type κ} → Outcome E S → (S → Outcome E T) → Outcome E T
err failure >>= next = err failure
ok s >>= next = next s

infixl 5 ◌>>◌
abbrev pub ◌>>◌ {ℓ} : {E : Type 0} {T : Type ℓ} → Outcome E (Unit {0}) → Outcome E T → Outcome E T
first >> second = first >>= λ _. second

pub >>-eq-ok {ℓ} :
    {E : Type 0} {T : Type ℓ} (first : Outcome E (Unit {0})) (second : Outcome E T) {t : T}
    → (first >> second) ≡ ok t
    → (first ≡ ok tt) × (second ≡ ok t)
>>-eq-ok (err failure) second h = cc
>>-eq-ok (ok tt) second h = (refl, h)

pub >>=-eq-ok {ℓ κ} :
    {E : Type 0} {S : Type ℓ} {T : Type κ} (first : Outcome E S) (next : S → Outcome E T) {t : T}
    → (first >>= next) ≡ ok t
    → (s : S) × (first ≡ ok s) × (next s ≡ ok t)
>>=-eq-ok (err failure) next h = cc
>>=-eq-ok (ok s) next h = (s, refl, h)

pub ok_inj {ℓ} : {E : Type 0} {A : Type ℓ} {a b : A} → ◌≡◌ {A = Outcome E A} (ok a) (ok b) → a ≡ b
ok_inj h = cc
