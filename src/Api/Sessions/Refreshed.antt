-- ===== src/Api/Sessions/Refreshed.antt =====
-- Refreshes: the route `refresh` of apps/api/routes/auth.py on the token service.
use aipy.Prelude.{
  refl, sym, ap, subst, inl, inr, Bool, false, Option, none, some, ◌≡◌, ◌∙◌, ◌≢◌, Bool-cases,
  if_true, if_false,
}
use aipy.Prelude.Options.{some_inj}
use aipy.Identity.Claims.{Time, RefreshTokenClaims, TokenPair, JwtTokenSettings, Checked}
use aipy.Identity.Payloads.{JwtLibrary}
use aipy.Identity.Revocations.{RevocationRepository}
use aipy.Identity.Tokens.{rotate_token_pair, verify_refresh_token, decode_refresh, logout}
use aipy.Identity.Tokens.Verified.{verify_refresh_token-ok, decode_refresh-ok}
use aipy.Identity.Tokens.Rotation.{rotates_once, session_ended}
use aipy.Api.Errors.{Result, Failure, ok, err, ok_inj}
use aipy.Api.Sessions.Accounts.{Directory, build_session}
use aipy.Api.Sessions.{
  Entry, RefreshTimes, LoginIds, require_refresh_claims, claims_or_401, subject_of, after_rotation,
  after_claims, refresh,
}
use aipy.Api.Sessions.Entered.{enter-ok}

module _ {Store Token : Type 0} (jwt : JwtLibrary Token) (settings : JwtTokenSettings)
    (revocations : RevocationRepository Store) (secure : Bool) where
  -- The cookie verified, its token was rotated for the identity that it carries, and the session is
  -- that of the tenant and the actor.
  pub record Refreshed (cookie : Option Token) (times : RefreshTimes) (ids : LoginIds)
      (store : Store) (db : Directory) (entry : Entry Token) (store' : Store) : Type 0 where
    pub token : Token
    pub claims : RefreshTokenClaims
    pub present : cookie ≡ some token
    pub verified :
        verify_refresh_token jwt settings revocations store token times.at_verify ≡ ok claims
    pub rotated :
        rotate_token_pair jwt settings revocations store token
          (subject_of jwt settings revocations secure claims)
          times.at_rotate
          times.at_issue
          ids.access_id
          ids.refresh_id
        ≡ (ok entry.pair, store')
    pub session : build_session db claims.tenant_id claims.actor_id ≡ some entry.session

  claims_or_401-ok :
      (c : Checked RefreshTokenClaims) (t token : Token) (claims : RefreshTokenClaims)
      → claims_or_401 c t ≡ ok (token, claims)
      → (t ≡ token) × (c ≡ ok claims)
  claims_or_401-ok (err error) t token claims h = absurd cc
  claims_or_401-ok (ok x) t token claims h =
      let same = ok_inj h in (ap (λ p. p.0) same, ap (λ p. ok p.1) same)

  require_refresh_claims-ok :
      (store : Store) (cookie : Option Token) (now : Time) (token : Token)
      (claims : RefreshTokenClaims)
      → require_refresh_claims jwt settings revocations secure store cookie now ≡ ok (token, claims)
      → (cookie ≡ some token)
        × (verify_refresh_token jwt settings revocations store token now ≡ ok claims)
  require_refresh_claims-ok store none now token claims h = absurd cc
  require_refresh_claims-ok store (some t) now token claims h = elim (Bool-cases (jwt.empty t)) [
    | inl e ↦ absurd (no_claims (sym (if_true _ _ e) ∙ h))
    | inr e ↦
        let (same, verified) =
          claims_or_401-ok (verify_refresh_token jwt settings revocations store t now) t token
            claims (sym (if_false _ _ e) ∙ h) in
        (
          ap some same,
          subst (λ x. verify_refresh_token jwt settings revocations store x now ≡ ok claims) same
              verified,
        )
  ]
    where
      no_claims :
          {failure : Failure}
          → ◌≢◌ {A = Result (Token × RefreshTokenClaims)} (err failure) (ok (token, claims))
      no_claims k = cc

  after_rotation-ok :
      (rotated : Checked (TokenPair Token)) (claims : RefreshTokenClaims) (times : RefreshTimes)
      (db : Directory) (entry : Entry Token)
      → after_rotation jwt settings revocations secure rotated claims times db ≡ ok entry
      → (rotated ≡ ok entry.pair)
        × (build_session db claims.tenant_id claims.actor_id ≡ some entry.session)
  after_rotation-ok (err x) claims times db entry h = absurd cc
  after_rotation-ok (ok pair) claims times db entry h =
      let (session, same, _c) =
        enter-ok (build_session db claims.tenant_id claims.actor_id) pair _ entry h in
      (ap ok (sym same), session)

  after_claims-Refreshed :
      (cookie : Option Token) (times : RefreshTimes) (ids : LoginIds) (store store' : Store)
      (db : Directory) (entry : Entry Token) (checked : Result (Token × RefreshTokenClaims))
      → require_refresh_claims jwt settings revocations secure store cookie times.at_verify
        ≡ checked
      → after_claims jwt settings revocations secure checked times ids store db ≡ (ok entry, store')
      → Refreshed cookie times ids store db entry store'
  after_claims-Refreshed cookie times ids store store' db entry (err failure) e h = absurd cc
  after_claims-Refreshed cookie times ids store store' db entry (ok (token, claims)) e h =
      let (present, verified) =
        require_refresh_claims-ok store cookie times.at_verify token claims e in
      let rotation =
        rotate_token_pair jwt settings revocations store token
          (subject_of jwt settings revocations secure claims) times.at_rotate times.at_issue
          ids.access_id ids.refresh_id in
      let (answer, session) =
        after_rotation-ok rotation.0 claims times db entry (ap (λ x. x.0) h) in
      record {
        token = token;
        claims = claims;
        present = present;
        verified = verified;
        rotated = rw (← answer, ← (ap (λ x. x.1) h)) refl;
        session = session;
      }

  pub refresh-Refreshed :
      (cookie : Option Token) (times : RefreshTimes) (ids : LoginIds) (store store' : Store)
      (db : Directory) (entry : Entry Token)
      → refresh jwt settings revocations secure cookie times ids store db ≡ (ok entry, store')
      → Refreshed cookie times ids store db entry store'
  unfolding refresh
  refresh-Refreshed cookie times ids store store' db entry h =
      after_claims-Refreshed cookie times ids store store' db entry _ refl h

  -- On a store of revocations that forgets nothing, such as the one in memory: after a refresh with
  -- a cookie has gone through, no refresh with the same cookie on the resulting store goes through,
  -- whenever and on whatever database. The store on Redis, whose entries expire, is not such a
  -- store.
  pub refreshes_once :
      (cookie : Option Token) (times times' : RefreshTimes) (ids ids' : LoginIds)
      (store store' other : Store) (db db' : Directory) (entry entry' : Entry Token)
      → refresh jwt settings revocations secure cookie times ids store db ≡ (ok entry, store')
      → refresh jwt settings revocations secure cookie times' ids' store' db' ≢ (ok entry', other)
  refreshes_once cookie times times' ids ids' store store' other db db' entry entry' h k =
      let first = refresh-Refreshed cookie times ids store store' db entry h in
      let second = refresh-Refreshed cookie times' ids' store' other db' entry' k in
      let same : second.token ≡ first.token = some_inj (sym second.present ∙ first.present) in
      rotates_once jwt settings revocations store store' other first.token
        (subject_of jwt settings revocations secure first.claims)
        (subject_of jwt settings revocations secure second.claims) times.at_rotate times'.at_rotate
        times.at_issue times'.at_issue ids.access_id ids.refresh_id ids'.access_id ids'.refresh_id
        entry.pair entry'.pair first.rotated (rw (← same) second.rotated)

  -- On a store of revocations that forgets nothing, such as the one in memory: after a logout with
  -- a refresh token that still decodes, no refresh with that token goes through. The store on
  -- Redis, whose entries expire, is not such a store.
  pub no_refresh_after_logout :
      (access : Option Token) (token : Token) (now later : Time) (claims : RefreshTokenClaims)
      (times : RefreshTimes) (ids : LoginIds) (store other : Store) (db : Directory)
      (entry : Entry Token)
      → decode_refresh jwt settings revocations token later ≡ ok claims
      → refresh jwt settings revocations secure
          (some token)
          times
          ids
          (logout jwt settings revocations store access (some token) now later)
          db
        ≢ (ok entry, other)
  no_refresh_after_logout access token now later claims times ids store other db entry decoded h =
      let left = logout jwt settings revocations store access (some token) now later in
      let facts = refresh-Refreshed (some token) times ids left other db entry h in
      let same : facts.token ≡ token = some_inj (sym facts.present) in
      let seen =
        verify_refresh_token-ok jwt settings revocations left token times.at_verify facts.claims (
          subst
            (λ t.
              verify_refresh_token jwt settings revocations left t times.at_verify
              ≡ ok facts.claims)
            same facts.verified) in
      let (p, opened, _k, read) =
        decode_refresh-ok jwt settings revocations token later claims decoded in
      let payload : seen.payload ≡ p = cc (seen.decoded, opened) in
      let is : claims ≡ facts.claims = cc (payload, read, seen.read) in
      let ended =
        session_ended jwt settings revocations store access token now later claims decoded in
      let kept =
        subst (λ (c : RefreshTokenClaims). revocations.is_session_revoked left c.session_id ≡ false)
          (sym is) seen.session_kept in
      cc (ended, kept)
