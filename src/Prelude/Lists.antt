-- ===== src/Prelude/Lists.antt =====
-- Python's sequences, sets and dictionaries as lists.
use Prim.Native.Nat.{ℕ, suc}
use mathlib.Core.Path.{◌≡◌, refl, sym, subst}
use mathlib.Core.Logic.{◌↔◌, ◌⊎◌, ◌≢◌, inl, inr}
use mathlib.Core.Bool.{Bool, true, false, not, ◌||◌, ◌&&◌}
use mathlib.Core.Option.{Option, none, some}
use mathlib.Core.List.{List, [], ◌∷◌, ◌++◌, map}
use native.Mathlib.Omega.{arith}
use aipy.Prelude.Tests.{Eq, ◌==◌, if◌then◌else◌, Bool-cases, Decides, or_Decides}

module _ {ℓ} {A : Type ℓ} where
  abbrev pub length : List A → ℕ
  length [] = 0
  length (x ∷ xs) = suc (length xs)

  -- `any(p(x) for x in xs)`
  abbrev pub any : (A → Bool) → List A → Bool
  any p [] = false
  any p (x ∷ xs) = p x || any p xs

  -- `[x for x in xs if p(x)]`
  abbrev pub keep : (A → Bool) → List A → List A
  keep p [] = []
  keep p (x ∷ xs) = let rest = keep p xs in if p x then x ∷ rest else rest

  -- The first row of a query, `None` if there is none.
  abbrev pub find : (A → Bool) → List A → Option A
  find p [] = none
  find p (x ∷ xs) = let rest = find p xs in if p x then some x else rest

  abbrev pub is_empty : List A → Bool
  is_empty [] = true
  is_empty (x ∷ xs) = false

  -- A predicate on every element.
  abbrev pub All {κ} : (A → Type κ) → List A → Type κ
  All P [] = Unit
  All P (x ∷ xs) = P x × All P xs

  pub any-append : (p : A → Bool) (xs ys : List A) → any p (xs ++ ys) ≡ (any p xs || any p ys)
  any-append p [] ys = refl
  any-append p (x ∷ xs) ys = ground (arith, any-append p xs ys)

  pub keep-append : (p : A → Bool) (xs ys : List A) → keep p (xs ++ ys) ≡ keep p xs ++ keep p ys
  keep-append p [] ys = refl
  keep-append p (x ∷ xs) ys = ground (arith, keep-append p xs ys)

  pub All-keep : (p : A → Bool) (xs : List A) → All (λ x. p x ≡ true) (keep p xs)
  All-keep p [] = tt
  All-keep p (x ∷ xs) = ground (arith, All-keep p xs)

  pub any-keep : (p q : A → Bool) (xs : List A) → any q (keep p xs) ≡ any (λ x. p x && q x) xs
  any-keep p q [] = refl
  any-keep p q (x ∷ xs) = ground (arith, any-keep p q xs)

  pub is_empty-keep : (p : A → Bool) (xs : List A) → not (is_empty (keep p xs)) ≡ any p xs
  is_empty-keep p [] = refl
  is_empty-keep p (x ∷ xs) = ground (arith, is_empty-keep p xs)

  pub is_empty_iff : (xs : List A) → Decides (is_empty xs) (xs ≡ [])
  is_empty_iff [] = (λ e. refl, λ e. refl)
  is_empty_iff (x ∷ xs) = (λ e. cc, λ e. cc)

  pub find_holds : (p : A → Bool) (xs : List A) (x : A) → find p xs ≡ some x → p x ≡ true
  find_holds p [] x h = cc
  find_holds p (y ∷ xs) x h = ground (arith, find_holds p xs x)

  pub All-find {κ} :
      (P : A → Type κ) (p : A → Bool) (xs : List A) (x : A) → All P xs → find p xs ≡ some x → P x
  All-find P p [] x h e = cc
  All-find P p (y ∷ xs) x (hy, h) e = elim (Bool-cases (p y)) [
    | inl hit ↦ subst P (ground arith) hy
    | inr miss ↦ All-find P p xs x h (ground arith)
  ]

-- There is an element with the property; which one, and where, is kept.
abbrev pub Any : {A : Type 0} → (A → Type 0) → List A → Type 0
Any P [] = ⊥
Any P (x ∷ xs) = P x ⊎ Any P xs

pub Any-map :
    {A : Type 0} {P Q : A → Type 0} (xs : List A) → ((x : A) → P x → Q x) → Any P xs → Any Q xs
Any-map (x ∷ xs) f (inl h) = inl (f x h)
Any-map (x ∷ xs) f (inr h) = inr (Any-map xs f h)
Any-map [] f h = elim h [ ]

pub Any-append_left : {A : Type 0} (P : A → Type 0) (xs ys : List A) → Any P xs → Any P (xs ++ ys)
Any-append_left P (x ∷ xs) ys (inl h) = inl h
Any-append_left P (x ∷ xs) ys (inr h) = inr (Any-append_left P xs ys h)
Any-append_left P [] ys h = elim h [ ]

abbrev pub In : {A : Type 0} → A → List A → Type 0
In a xs = Any (λ x. a ≡ x) xs

In-map-keep_step :
    {A B : Type 0} (f : A → B) (b : B) (x : A) (xs : List A) (t : Bool) {Q : Type 0}
    → In b (map f xs) ↔ Q
    → In b (map f (if t then x ∷ xs else xs)) ↔ (((t ≡ true) × (b ≡ f x)) ⊎ Q)
In-map-keep_step f b x xs true ih = (
  λ h. elim h [ inl e ↦ inl (refl, e) | inr r ↦ inr (ih.0 r) ],
  λ h. elim h [ inl e ↦ inl e.1 | inr r ↦ inr (ih.1 r) ],
)
In-map-keep_step f b x xs false ih =
    (λ h. inr (ih.0 h), λ h. elim h [ inl e ↦ cc (e.0) | inr r ↦ ih.1 r ])

-- `[f(x) for x in xs if p(x)]`, member by member.
pub In-map-keep :
    {A B : Type 0} (p : A → Bool) (f : A → B) (b : B) (xs : List A)
    → In b (map f (keep p xs)) ↔ Any (λ x. (p x ≡ true) × (b ≡ f x)) xs
In-map-keep p f b [] = (λ h. h, λ h. h)
In-map-keep p f b (x ∷ xs) = In-map-keep_step f b x (keep p xs) (p x) (In-map-keep p f b xs)

-- A Boolean search decides the existence of what its test decides.
pub any_iff :
    {A : Type 0} {P : A → Type 0} (p : A → Bool) (xs : List A)
    → ((x : A) → Decides (p x) (P x))
    → Decides (any p xs) (Any P xs)
any_iff p [] h = (λ e. cc, λ e. elim e [ ])
any_iff p (x ∷ xs) h = or_Decides (p x) (any p xs) (h x) (any_iff p xs h)

-- `a in s`, for a set or a tuple.
abbrev pub contains {ℓ} : {A : Type ℓ} ⦃e : Eq A⦄ → List A → A → Bool
contains xs a = any (λ x. a == x) xs

pub contains_iff : {A : Type 0} ⦃e : Eq A⦄ (xs : List A) (a : A) → Decides (contains xs a) (In a xs)
contains_iff ⦃e⦄ xs a = any_iff (λ x. e.beq a x) xs (λ x. e.beq_iff a x)

-- Of the rows of a query that fit, the first is one.
pub In-find : {A : Type 0} (p : A → Bool) (xs : List A) (x : A) → find p xs ≡ some x → In x xs
In-find p [] x h = cc
In-find p (y ∷ xs) x h = elim (Bool-cases (p y)) [
  | inl hit ↦ inl (ground arith)
  | inr miss ↦ inr (In-find p xs x (ground arith))
]

pub Any-keep :
    {A : Type 0} (P : A → Type 0) (p : A → Bool) (xs : List A)
    → Any P (keep p xs) ↔ Any (λ x. (p x ≡ true) × P x) xs
Any-keep P p [] = (λ h. h, λ h. h)
Any-keep P p (x ∷ xs) = kept (p x) (Any-keep P p xs)
  where
    kept :
        (t : Bool)
        → Any P (keep p xs) ↔ Any (λ x. (p x ≡ true) × P x) xs
        → Any P (if t then x ∷ keep p xs else keep p xs)
          ↔ (((t ≡ true) × P x) ⊎ Any (λ x. (p x ≡ true) × P x) xs)
    kept true ih = (
      λ h. elim h [ inl e ↦ inl (refl, e) | inr r ↦ inr (ih.0 r) ],
      λ h. elim h [ inl e ↦ inl e.1 | inr r ↦ inr (ih.1 r) ],
    )
    kept false ih = (λ h. inr (ih.0 h), λ h. elim h [ inl e ↦ cc (e.0) | inr r ↦ ih.1 r ])

pub Any-witness : {A : Type 0} {P : A → Type 0} (xs : List A) → Any P xs → (x : A) × In x xs × P x
Any-witness [] h = elim h [ ]
Any-witness (x ∷ xs) (inl h) = (x, inl refl, h)
Any-witness (x ∷ xs) (inr h) = let (y, k, p) = Any-witness xs h in (y, inr k, p)

pub In-Any : {A : Type 0} (P : A → Type 0) (xs : List A) (x : A) → In x xs → P x → Any P xs
In-Any P (y ∷ xs) x (inl h) p = inl (subst P h p)
In-Any P (y ∷ xs) x (inr h) p = inr (In-Any P xs x h p)
In-Any P [] x h p = elim h [ ]

pub In-All : {A : Type 0} (P : A → Type 0) (xs : List A) (x : A) → All P xs → In x xs → P x
In-All P (y ∷ xs) x (h, hs) (inl e) = subst P (sym e) h
In-All P (y ∷ xs) x (h, hs) (inr k) = In-All P xs x hs k
In-All P [] x h k = elim k [ ]

-- A search that finds nothing has passed over every element.
pub find-none :
    {A : Type 0} (p : A → Bool) (xs : List A) → find p xs ≡ none → (x : A) → In x xs → p x ≢ true
find-none p [] e x h k = elim h [ ]
find-none p (y ∷ xs) e x (inl h) k = ground (arith, e, (subst (λ z. p z ≡ true) h k))
find-none p (y ∷ xs) e x (inr h) k = elim (Bool-cases (p y)) [
  | inl hit ↦ ground (arith, hit, e)
  | inr miss ↦ find-none p xs (ground (arith, miss, e)) x h k
]

-- A search finds the one element that fits.
pub find_unique :
    {A : Type 0} (p : A → Bool) (xs : List A) (x : A)
    → In x xs
    → p x ≡ true
    → ((y : A) → In y xs → p y ≡ true → y ≡ x)
    → find p xs ≡ some x
find_unique p [] x h fits only = elim h [ ]
find_unique p (y ∷ xs) x (inl e) fits only = rw (← e, fits) refl
find_unique p (y ∷ xs) x (inr h) fits only = elim (Bool-cases (p y)) [
  | inl hit ↦ let is = only y (inl refl) hit in rw (hit, is) refl
  | inr miss ↦ rw miss (find_unique p xs x h fits (λ z k. only z (inr k)))
]
