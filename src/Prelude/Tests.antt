-- ===== src/Prelude/Tests.antt =====
-- Boolean tests, the conditional, and equality as an interface.
use Prim.Native.Nat.{ℕ, ◌≤◌, ◌<◌, compare, Ordering}
use Prim.Native.String.{String}
use mathlib.Core.Path.{◌≡◌, refl, ap}
use mathlib.Core.Logic.{◌↔◌, ◌⊎◌, inl, inr}
use mathlib.Core.Bool.{Bool, true, false, not, ◌&&◌, ◌||◌}
use mathlib.Core.Option.{Option, none, some}
use native.Mathlib.Omega.{arith}
use text.Mathlib.Text.{◌==◌ as str_eq}
use text.Mathlib.TextEquality.{eq_iff}

infix 1 if◌then◌else◌
abbrev pub if◌then◌else◌ {ℓ} : {A : Type ℓ} → Bool → A → A → A
if true then x else y = x
if false then x else y = y

abbrev pub ltb : ℕ → ℕ → Bool
ltb a b = elim (compare a b) [ Ordering.lt ↦ true | _ ↦ false ]

abbrev pub leb : ℕ → ℕ → Bool
leb a b = elim (compare a b) [ Ordering.gt ↦ false | _ ↦ true ]

abbrev pub nat_beq : ℕ → ℕ → Bool
nat_beq a b = elim (compare a b) [ Ordering.eq ↦ true | _ ↦ false ]

pub nat_beq_iff : (a b : ℕ) → (nat_beq a b ≡ true) ↔ (a ≡ b)
nat_beq_iff a b = ground arith

pub ltb→lt : (a b : ℕ) → ltb a b ≡ true → a < b
ltb→lt a b h = ground arith

pub lt→ltb : (a b : ℕ) → a < b → ltb a b ≡ true
lt→ltb a b h = ground arith

pub ltb-le : (a b : ℕ) → ltb a b ≡ false → b ≤ a
ltb-le a b h = ground arith

pub leb→le : (a b : ℕ) → leb a b ≡ true → a ≤ b
leb→le a b h = ground arith

pub le→leb : (a b : ℕ) → a ≤ b → leb a b ≡ true
le→leb a b h = ground arith

-- `a == b` of Python, at the types whose values the program compares.
pub record Eq {ℓ} (K : Type ℓ) : Type ℓ where
  pub beq : K → K → Bool
  pub beq_iff : (x y : K) → (beq x y ≡ true) ↔ (x ≡ y)

infix 50 ◌==◌
abbrev pub ◌==◌ {ℓ} : {K : Type ℓ} ⦃keys : Eq K⦄ → K → K → Bool
◌==◌ ⦃keys⦄ = keys.beq

instance abbrev pub nat_eq : Eq ℕ
nat_eq = record { beq = nat_beq; beq_iff = nat_beq_iff }

instance abbrev pub string_eq : Eq String
string_eq = record { beq = str_eq; beq_iff = eq_iff }

-- `o == a` where the left side may be `None`.
abbrev pub holds {ℓ} : {A : Type ℓ} ⦃e : Eq A⦄ → Option A → A → Bool
holds none a = false
holds (some b) a = b == a

abbrev pub is_none {ℓ} : {A : Type ℓ} → Option A → Bool
is_none none = true
is_none (some a) = false

pub Bool-cases : (b : Bool) → (b ≡ true) ⊎ (b ≡ false)
Bool-cases true = inl refl
Bool-cases false = inr refl

pub Option-cases {ℓ} : {A : Type ℓ} (o : Option A) → (o ≡ none) ⊎ ((a : A) × (o ≡ some a))
Option-cases none = inl refl
Option-cases (some a) = inr (a, refl)

-- A test decides a statement.
abbrev pub Decides {ℓ} : Bool → Type ℓ → Type ℓ
Decides b P = (b ≡ true) ↔ P

pub or_Decides {ℓ} :
    {P Q : Type ℓ} (b c : Bool) → Decides b P → Decides c Q → Decides (b || c) (P ⊎ Q)
or_Decides true c h k = (λ e. inl (h.0 refl), λ e. refl)
or_Decides false true h k = (λ e. inr (k.0 refl), λ e. refl)
or_Decides false false h k = (λ e. cc, λ e. elim e [ inl p ↦ h.1 p | inr q ↦ k.1 q ])

pub and_Decides {ℓ} :
    {P Q : Type ℓ} (b c : Bool) → Decides b P → Decides c Q → Decides (b && c) (P × Q)
and_Decides true true h k = (λ e. (h.0 refl, k.0 refl), λ e. refl)
and_Decides true false h k = (λ e. cc, λ e. k.1 e.1)
and_Decides false c h k = (λ e. cc, λ e. h.1 e.0)

pub not_Decides {ℓ} : {P : Type ℓ} (b : Bool) → Decides b P → Decides (not b) (¬ P)
not_Decides true h = (λ e. cc, λ e. absurd (e (h.0 refl)))
not_Decides false h = (λ e p. cc (h.1 p), λ e. refl)

pub id_Decides : (b : Bool) → Decides b (b ≡ true)
id_Decides b = (λ e. e, λ e. e)

pub holds_iff : {A : Type 0} ⦃e : Eq A⦄ (o : Option A) (a : A) → Decides (holds o a) (o ≡ some a)
holds_iff none a = (λ h. cc, λ h. cc)
holds_iff ⦃e⦄ (some b) a = (λ h. ap some ((e.beq_iff b a).0 h), λ h. (e.beq_iff b a).1 (cc h))

pub not-false : (b : Bool) → not b ≡ false → b ≡ true
not-false true h = refl
not-false false h = cc

pub if_true {ℓ} : {A : Type ℓ} {b : Bool} (x y : A) → b ≡ true → (if b then x else y) ≡ x
if_true {b = true} x y h = refl
if_true {b = false} x y h = cc

pub if_false {ℓ} : {A : Type ℓ} {b : Bool} (x y : A) → b ≡ false → (if b then x else y) ≡ y
if_false {b = true} x y h = cc
if_false {b = false} x y h = refl

pub Decides-false {ℓ} : {P : Type ℓ} (b : Bool) → Decides b P → ¬ P → b ≡ false
Decides-false true h k = absurd (k (h.0 refl))
Decides-false false h k = refl

pub not-true : (b : Bool) → not b ≡ true → b ≡ false
not-true true h = cc
not-true false h = refl
