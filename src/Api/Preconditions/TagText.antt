-- ===== src/Api/Preconditions/TagText.antt =====
-- How the text of an entity tag is stripped and searched (`parse_expected_version` of
-- apps/api/repositories.py), piece by piece.
use aipy.Prelude.{
  String, refl, sym, Bool, true, false, none, arith, ◌-◌, ◌≡◌, is_blank, rstrip_by, is_digit,
  lstrip_by, Bool-cases, ◌*◌, ◌+◌, inl, inr,
}
use aipy.Prelude.Decimal.{digits_value, starts_digit, digits_only}
use Prim.Native.Char.{Char, code}
use Prim.Native.String
use text.Mathlib.TextLemmas.{nil-append, cons-append}
use aipy.Api.Preconditions.{is_quote, version_after_v, search_version, after_weak, ℕ, some}

pub append-filled : (s t : String) → is_blank t ≡ false → is_blank (String.◌++◌ s t) ≡ false
append-filled String.[] t h = rw nil-append h
append-filled (String.◌∷◌ c s) t h = rw cons-append refl

-- What ends in text that stays is kept in front of it.
pub rstrip-append :
    (p : Char → Bool) (s t : String)
    → is_blank (rstrip_by p t) ≡ false
    → rstrip_by p (String.◌++◌ s t) ≡ String.◌++◌ s (rstrip_by p t)
rstrip-append p String.[] t h = rw nil-append (sym (nil-append (rstrip_by p t)))
rstrip-append p (String.◌∷◌ c s) t h =
    let filled = append-filled s (rstrip_by p t) h in
    rw (cons-append, rstrip-append p s t h)
      (ground (arith, filled, cons-append c s (rstrip_by p t)))

-- A closing quote behind digits is stripped.
pub rstrip-quote : (x : String) → digits_only x ≡ true → rstrip_by is_quote (String.◌++◌ x "\"") ≡ x
unfolding digits_only
rstrip-quote String.[] h = refl
rstrip-quote (String.◌∷◌ c x) h =
    let digits : digits_only x ≡ true = ground (arith, h) in
    let digit : is_digit c ≡ true = ground (arith, h) in
    let no_quote : is_quote c ≡ false = ground (arith, digit) in
    rw (cons-append, rstrip-quote x digits, no_quote) refl

pub lstrip-append :
    (p : Char → Bool) (s t : String)
    → lstrip_by p t ≡ t
    → (rest : String) × (lstrip_by p (String.◌++◌ s t) ≡ String.◌++◌ rest t)
lstrip-append p String.[] t h = ("", rw nil-append h)
lstrip-append p (String.◌∷◌ c s) t h = elim (Bool-cases (p c)) [
  | inl e ↦ let (rest, same) = lstrip-append p s t h in (rest, rw (cons-append, e) same)
  | inr e ↦ (String.◌∷◌ c s, rw (cons-append, e) refl)
]

-- The end of a tag without its quote.
abbrev pub versioned : String → String
versioned d = String.◌∷◌ "-" (String.◌∷◌ "v" d)

no_value : (n : ℕ) (s d : String) → digits_value n (String.◌++◌ s (versioned d)) ≡ none
unfolding digits_value
no_value n String.[] d = rw nil-append refl
no_value n (String.◌∷◌ c s) d =
    let rest = no_value (n * 10 + (code c - 48)) s d in
    let filled = append-filled s (versioned d) refl in rw cons-append (ground (arith, rest, filled))

no_version : (s d : String) → version_after_v (String.◌++◌ s (versioned d)) ≡ none
no_version String.[] d = rw nil-append refl
no_version (String.◌∷◌ c s) d = rw (cons-append, no_value 0 s d) (ground arith)

-- The version is the number at the very end, whatever stands before it.
pub search_version-append :
    (s d : String) (v : ℕ)
    → digits_value 0 d ≡ some v
    → starts_digit d ≡ true
    → search_version (String.◌++◌ s (versioned d)) ≡ some v
unfolding search_version
search_version-append String.[] d v h k = rw nil-append (ground (arith, h, k))
search_version-append (String.◌∷◌ c s) d v h k =
    rw (cons-append, no_version s d, search_version-append s d v h k) (ground arith)

pub after_weak-quote : (s : String) → after_weak (String.◌∷◌ "\"" s) ≡ none
after_weak-quote String.[] = refl
after_weak-quote (String.◌∷◌ c s) = refl
