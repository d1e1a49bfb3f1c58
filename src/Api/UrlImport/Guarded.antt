-- ===== src/Api/UrlImport/Guarded.antt =====
-- No request of an import goes to an address that was not looked up and found public just before,
-- and the requests of one import are few: apps/api/url_import.py.
use aipy.Api.UrlImport.{
  Web, History, SplitUrl, Event, assert_global, assert_public_url, assert_parts, assert_host,
  unmapped, assert_resolved,
}
use aipy.Prelude.{
  ℕ, String, refl, inl, inr, true, false, Option, none, some, List, [], ◌+◌, ◌≡◌, ◌∷◌, Bool-cases,
  All, In, contains, contains_iff, is_blank, string_eq, nat_eq,
}
use aipy.Api.Errors.{Result, Failure, ok, err}

module _ {Address : Type 0} (web : Web Address) where
  -- The URL is a public one for who looks its host up after this history.
  pub record Public (past : History) (url : String) : Type 0 where
    pub parts : SplitUrl
    pub host : String
    pub infos : List Address
    pub split : web.urlsplit url ≡ some parts
    pub scheme : In parts.scheme ("http" ∷ "https" ∷ [])
    pub hostname : parts.hostname ≡ some host
    pub named : is_blank host ≡ false
    pub resolved : web.getaddrinfo past host ≡ some infos
    pub all_global : All (λ a. web.is_global (unmapped web a) ≡ true) infos

  -- The newest event is the lookup of the host of a URL, which was found public by it.
  abbrev pub Checked : String → History → Type 0
  Checked url [] = ⊥
  Checked url (Event.requested other ∷ past) = ⊥
  Checked url (Event.looked_up host ∷ past) = (p : Public past url) × (p.host ≡ host)

  abbrev pub IsGuarded : History → Type 0
  IsGuarded [] = Unit
  IsGuarded (Event.looked_up host ∷ past) = IsGuarded past
  IsGuarded (Event.requested url ∷ past) = Checked url past × IsGuarded past

  assert_global-All :
      (infos : List Address)
      → assert_global web infos ≡ ok tt
      → All (λ a. web.is_global (unmapped web a) ≡ true) infos
  assert_global-All [] h = tt
  assert_global-All (a ∷ infos) h = elim (Bool-cases (web.is_global (unmapped web a))) [
    | inl global ↦ (global, assert_global-All infos (rw global at h))
    | inr private ↦ absurd (cc (rw private at h))
  ]

  -- How a check ends: the URL is public, with its lookup the newest event, or it raises, after at
  -- most one lookup.
  pub data Asserted (url : String) (past : History) (r : Result (Unit {0}) × History) : Type 0 where
    passed :
        (p : Public past url) → r ≡ (ok tt, Event.looked_up p.host ∷ past) → Asserted url past r
    refused : (e : Failure) → r ≡ (err e, past) → Asserted url past r
    refused_host :
        (e : Failure) (host : String)
        → r ≡ (err e, Event.looked_up host ∷ past)
        → Asserted url past r

  assert_host-Asserted :
      (url : String) (past : History) (parts : SplitUrl) (hostname : Option String)
      → web.urlsplit url ≡ some parts
      → In parts.scheme ("http" ∷ "https" ∷ [])
      → parts.hostname ≡ hostname
      → Asserted url past (assert_host web hostname past)
  assert_host-Asserted url past parts none split scheme is = refused _ refl
  assert_host-Asserted url past parts (some host) split scheme is =
      elim (Bool-cases (is_blank host)) [
        | inl blank ↦ rw blank (refused _ refl)
        | inr named ↦ rw named (looked (web.getaddrinfo past host) refl named)
      ]
    where
      checked :
          (infos : List Address) (r : Result (Unit {0}))
          → web.getaddrinfo past host ≡ some infos
          → is_blank host ≡ false
          → assert_global web infos ≡ r
          → Asserted url past (r, Event.looked_up host ∷ past)
      checked infos (err e) found named h = refused_host e host refl
      checked infos (ok tt) found named h =
          passed
            (record {
              parts = parts;
              host = host;
              infos = infos;
              split = split;
              scheme = scheme;
              hostname = is;
              named = named;
              resolved = found;
              all_global = assert_global-All infos h;
            })
            refl

      looked :
          (o : Option (List Address))
          → web.getaddrinfo past host ≡ o
          → is_blank host ≡ false
          → Asserted url past (assert_resolved web host o, Event.looked_up host ∷ past)
      looked none found named = refused_host _ host refl
      looked (some infos) found named = checked infos (assert_global web infos) found named refl

  pub assert_public_url-Asserted :
      (url : String) (past : History) → Asserted url past (assert_public_url web url past)
  unfolding assert_public_url
  assert_public_url-Asserted url past = split (web.urlsplit url) refl
    where
      split :
          (o : Option SplitUrl) → web.urlsplit url ≡ o → Asserted url past (assert_parts web o past)
      split none is = refused _ refl
      split (some parts) is = elim (Bool-cases (contains ("http" ∷ "https" ∷ []) parts.scheme)) [
        | inl known ↦ rw known (
            assert_host-Asserted url past parts parts.hostname is
              ((contains_iff ("http" ∷ "https" ∷ []) parts.scheme).0 known) refl)
        | inr unknown ↦ rw unknown (refused _ refl)
      ]

-- The number of requests of a history.
abbrev pub requests : History → ℕ
requests [] = 0
requests (Event.looked_up host ∷ past) = requests past
requests (Event.requested url ∷ past) = requests past + 1
