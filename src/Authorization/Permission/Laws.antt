-- ===== src/Authorization/Permission/Laws.antt =====
-- A permission code and its two halves: what the expression accepts, `resource` and `action` take
-- apart, and nothing is lost.
use aipy.Prelude.{
  String, refl, ap, inl, inr, true, false, some, arith, ◌≡◌, ◌&&◌, Bool-cases, is_lower,
}
use Prim.Native.Char.{Char}
use Prim.Native.String
use text.Mathlib.TextEquality.{Char-path}
use text.Mathlib.TextLemmas.{nil-append, cons-append}
use aipy.Authorization.Permission.{
  Permission, match_action_rest, match_action, match_resource_rest, make_permission, before_colon,
  after_colon, resource, action, is_colon, is_name_char,
}

-- `f"{r}:{a}"`
abbrev pub join : String → String → String
join r a = String.◌++◌ r (String.◌∷◌ ":" a)

module _ (c : Char) where
  is_colon-eq : is_colon c ≡ true → c ≡ ":"
  is_colon-eq h = Char-path c ":" (ground arith)

  name_char-not_colon : is_name_char c ≡ true → is_colon c ≡ false
  name_char-not_colon h = ground arith

  lower-not_colon : is_lower c ≡ true → is_colon c ≡ false
  lower-not_colon h = ground arith

-- The two halves of a text whose part before the colon goes on with name characters.
abbrev Halves : String → Type 0
Halves s =
    (a : String) × (after_colon s ≡ some a)
    × (match_action_rest (before_colon s) ≡ true)
    × (match_action a ≡ true)
    × (s ≡ join (before_colon s) a)

match_resource_rest-Halves : (s : String) → match_resource_rest s ≡ true → Halves s
unfolding match_resource_rest before_colon after_colon match_action_rest
match_resource_rest-Halves String.[] h = cc
match_resource_rest-Halves (String.◌∷◌ c s) h = elim (Bool-cases (is_colon c)) [
  | inl e ↦
      (s, rw e, rw e, ground arith, rw (e, nil-append) (ap (λ d. String.◌∷◌ d s) (is_colon-eq c e)))
  | inr e ↦
      let (a, found, named, good, whole) = match_resource_rest-Halves s (ground arith) in
      (a, rw e found, rw e (ground arith), good, rw e (rw cons-append (ap (String.◌∷◌ c) whole)))
]

-- An accepted permission code is its resource, a colon and its action, and both halves are names.
pub make_permission-split :
    (v : String) (p : Permission)
    → make_permission v ≡ some p
    → (a : String) × (action p ≡ some a)
      × (match_action (resource p) ≡ true)
      × (match_action a ≡ true)
      × (p.code ≡ v)
      × (v ≡ join (resource p) a)
unfolding make_permission resource action before_colon after_colon match_action
make_permission-split String.[] p h = cc
make_permission-split (String.◌∷◌ c s) p h =
    let ok : (is_lower c && match_resource_rest s) ≡ true = ground arith in
    let low : is_lower c ≡ true = ground arith in
    let same : p.code ≡ String.◌∷◌ c s = ground arith in
    let not_colon = lower-not_colon c low in
    let (a, found, named, good, whole) = match_resource_rest-Halves s (ground arith) in
    rw (same, not_colon)
      (a, found, rw (low, named), good, refl, rw cons-append (ap (String.◌∷◌ c) whole))

match_resource_rest-join :
    (r a : String)
    → match_action_rest r ≡ true
    → match_action a ≡ true
    → (match_resource_rest (join r a) ≡ true)
      × (before_colon (join r a) ≡ r)
      × (after_colon (join r a) ≡ some a)
unfolding match_resource_rest before_colon after_colon match_action_rest
match_resource_rest-join String.[] a h k = rw nil-append (k, refl, refl)
match_resource_rest-join (String.◌∷◌ c r) a h k =
    let named : is_name_char c ≡ true = ground arith in
    let not_colon = name_char-not_colon c named in
    let (matched, before, after) = match_resource_rest-join r a (ground arith) k in
    rw (cons-append, not_colon) (rw (named, matched), ap (String.◌∷◌ c) before, after)

-- Two names joined by a colon are accepted as a permission code, and its halves are the names.
pub make_permission-join :
    (r a : String)
    → match_action r ≡ true
    → match_action a ≡ true
    → (make_permission (join r a) ≡ some (record { code = join r a }))
      × (resource (record { code = join r a }) ≡ r)
      × (action (record { code = join r a }) ≡ some a)
unfolding make_permission resource action before_colon after_colon match_action
make_permission-join String.[] a h k = cc
make_permission-join (String.◌∷◌ c r) a h k =
    let low : is_lower c ≡ true = ground arith in
    let not_colon = lower-not_colon c low in
    let (matched, before, after) = match_resource_rest-join r a (ground arith) k in
    rw (cons-append, not_colon) (rw (low, matched), ap (String.◌∷◌ c) before, after)
