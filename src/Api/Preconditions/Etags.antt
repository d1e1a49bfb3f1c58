-- ===== src/Api/Preconditions/Etags.antt =====
-- Entity tags as they are written and read (`_etag` and `parse_expected_version` of
-- apps/api/repositories.py).
use aipy.Prelude.{
  ℕ, String, refl, ap, inr, false, none, some, ◌≡◌, ◌∙◌, ◌==◌, Bool-cases, is_blank, lstrip_by,
  strip_by, strip, string_eq, nat_eq, rstrip_by, is_space, inl, eq_iff,
}
use aipy.Prelude.Decimal.{decimal, starts_digit, digits_value-decimal, digits_only-decimal}
use Prim.Native.Char.{Char}
use Prim.Native.String
use text.Mathlib.TextLemmas.{nil-append, cons-append}
use aipy.Api.Errors.{ok}
use aipy.Api.Preconditions.{
  opaque_tag, is_quote, after_weak, search_version, etag, parse_expected_version, Bool, true, arith,
}
use aipy.Api.Preconditions.TagText.{
  versioned, append-filled, rstrip-append, rstrip-quote, lstrip-append, search_version-append,
  after_weak-quote,
}

-- A tag whose version is followed by `z`.
abbrev tag : String → String → String
tag code z = String.◌∷◌ "\"" (String.◌++◌ code (versioned z))

etag-tag : (code : String) (v : ℕ) → etag code v ≡ tag code (String.◌++◌ (decimal v) "\"")
unfolding etag
etag-tag code v =
    let z = String.◌++◌ (decimal v) "\"" in
    let dash =
      cons-append "-" "v" z
      ∙ ap (String.◌∷◌ "-") (cons-append "v" "" z ∙ ap (String.◌∷◌ "v") (nil-append z)) in
    cons-append "\"" "" _ ∙ ap (String.◌∷◌ "\"") (nil-append _ ∙ ap (String.◌++◌ code) dash)

rstrip-cons :
    (p : Char → Bool) (c : Char) (s : String)
    → is_blank (rstrip_by p s) ≡ false
    → rstrip_by p (String.◌∷◌ c s) ≡ String.◌∷◌ c (rstrip_by p s)
rstrip-cons p c s h = ground (arith, h)

rstrip-tag :
    (p : Char → Bool) (code z y : String)
    → rstrip_by p z ≡ y
    → is_blank y ≡ false
    → rstrip_by p (tag code z) ≡ tag code y
rstrip-tag p code z y h filled =
    let last = rstrip-cons p "v" z (ap is_blank h ∙ filled) ∙ ap (String.◌∷◌ "v") h in
    let dash = rstrip-cons p "-" (String.◌∷◌ "v" z) (ap is_blank last) ∙ ap (String.◌∷◌ "-") last in
    let whole =
      rstrip-append p code (versioned z) (ap is_blank dash) ∙ ap (String.◌++◌ code) dash in
    rstrip-cons p "\"" _ (ap is_blank whole ∙ append-filled code (versioned y) refl)
    ∙ ap (String.◌∷◌ "\"") whole

digit_filled : (s : String) → starts_digit s ≡ true → is_blank s ≡ false
unfolding starts_digit
digit_filled String.[] h = cc
digit_filled (String.◌∷◌ c s) h = refl

begins_quoted : String → Bool
begins_quoted String.[] = false
begins_quoted (String.◌∷◌ c s) = is_quote c

no_star : (s : String) → (String.◌∷◌ "\"" s == "*") ≡ false
unfolding begins_quoted
no_star s = elim (Bool-cases (String.◌∷◌ "\"" s == "*")) [
  | inl e ↦ cc (ap begins_quoted ((eq_iff (String.◌∷◌ "\"" s) "*").0 e))
  | inr e ↦ e
]

opaque_tag-kept :
    (header kept : String)
    → strip header ≡ kept
    → after_weak kept ≡ none
    → (kept == "*") ≡ false
    → opaque_tag header ≡ some (strip_by is_quote kept)
opaque_tag-kept header kept h weak star = rw (h, weak, star) refl

parse-found :
    (header found : String) (v : ℕ)
    → opaque_tag header ≡ some found
    → search_version found ≡ some v
    → parse_expected_version (some header) ≡ ok (some v)
unfolding parse_expected_version
parse-found header found v h read = rw (h, parse_expected_version) (rw read refl)

-- The version that an entity tag is written with is the version that is read from it, whatever the
-- code of the row is.
pub parse_expected_version-etag :
    (code : String) (version : ℕ)
    → parse_expected_version (some (etag code version)) ≡ ok (some version)
parse_expected_version-etag code version =
    let d = decimal version in
    let z = String.◌++◌ d "\"" in
    let (value, digit) = digits_value-decimal version in
    let outer = ap (lstrip_by is_space) (
      rstrip-tag is_space code z z (rstrip-append is_space d "\"" refl)
        (append-filled d "\"" refl)) in
    let weak = after_weak-quote (String.◌++◌ code (versioned z)) in
    let star = no_star (String.◌++◌ code (versioned z)) in
    let inner = ap (lstrip_by is_quote) (
      rstrip-tag is_quote code z d (rstrip-quote d (digits_only-decimal version))
        (digit_filled d digit)) in
    let (rest, front) = lstrip-append is_quote code (versioned d) refl in
    let read = search_version-append rest d version value digit in
    let stripped = opaque_tag-kept (tag code z) (tag code z) outer weak star in
    ap (λ t. parse_expected_version (some t)) (etag-tag code version)
    ∙ parse-found (tag code z) _ version (stripped ∙ ap some (inner ∙ front)) read
