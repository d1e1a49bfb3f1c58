-- ===== src/Identity/Tokens/Rotation.antt =====
-- Tokens are used once and sessions end: `rotate_token_pair` of
-- src/aipy/modules/identity/infrastructure/jwt_tokens.py, and `logout` of apps/api/routes/auth.py.
use aipy.Prelude.{
  refl, sym, ap, subst, Bool, true, false, not, Option, none, some, ◌≡◌, ◌≢◌, ◌&&◌, nat_beq_iff,
  not-false,
}
use aipy.Prelude.Outcomes.{ok, err, >>=-eq-ok, >>-eq-ok, ok_inj}
use aipy.Identity.Claims.{
  TokenSubject, AccessTokenClaims, RefreshTokenClaims, TokenPair, JwtTokenSettings, Checked, Time,
}
use aipy.Identity.Revocations.{RevocationRepository}
use aipy.Identity.Payloads.{JwtLibrary}
use aipy.Identity.Tokens.{
  raise_if, decode_refresh, verify_access_token, verify_refresh_token, checked_identity,
  same_actor_type, same_identity, rotation_of, after_consuming, issue_token_pair, rotate_token_pair,
  revoke_session, suppress, logout,
}
use aipy.Identity.Tokens.Verified.{
  passes, RefreshVerified, verify_refresh_token-ok, verify_access_token-ok,
}
use aipy.Security.{Uuid, ActorType}

-- The claims and the subject are of one identity.
pub record Matches (claims : RefreshTokenClaims) (who : TokenSubject) : Type 0 where
  pub tenant : claims.tenant_id ≡ who.tenant_id
  pub actor : claims.actor_id ≡ who.actor_id
  pub actor_type : claims.actor_type ≡ who.actor_type
  pub session : claims.session_id ≡ who.session_id

same_actor_type-eq : (a b : ActorType) → same_actor_type a b ≡ true → a ≡ b
same_actor_type-eq ActorType.user ActorType.user h = refl
same_actor_type-eq ActorType.service ActorType.service h = refl
same_actor_type-eq ActorType.user ActorType.service h = cc
same_actor_type-eq ActorType.service ActorType.user h = cc

both : (a b : Bool) → (a && b) ≡ true → (a ≡ true) × (b ≡ true)
both true true h = (refl, refl)
both true false h = cc
both false b h = cc

module _ {Store Token : Type 0} (jwt : JwtLibrary Token) (settings : JwtTokenSettings)
    (revocations : RevocationRepository Store) where
  -- What a rotation that goes through has checked and done.
  pub record Rotated (store : Store) (token : Token) (who : TokenSubject) (issued : Time)
      (access_id refresh_id : Uuid) (pair : TokenPair Token) (store' : Store) : Type 0 where
    pub claims : RefreshTokenClaims
    pub verified : RefreshVerified jwt settings revocations store token claims
    pub identity : Matches claims who
    pub answer : pair ≡ issue_token_pair jwt settings revocations who issued access_id refresh_id
    pub consumed : revocations.is_token_revoked store' claims.token_id ≡ true

  same_identity-Matches :
      (claims : RefreshTokenClaims) (who : TokenSubject)
      → same_identity jwt settings revocations claims who ≡ true
      → Matches claims who
  same_identity-Matches claims who h =
      let (tenant, h₁) = both _ _ h in
      let (actor, h₂) = both _ _ h₁ in
      let (kind, session) = both _ _ h₂ in
      record {
        tenant = (nat_beq_iff claims.tenant_id who.tenant_id).0 tenant;
        actor = (nat_beq_iff claims.actor_id who.actor_id).0 actor;
        actor_type = same_actor_type-eq claims.actor_type who.actor_type kind;
        session = (nat_beq_iff claims.session_id who.session_id).0 session;
      }

  after_consuming-ok :
      (answer : Bool × Store) (new pair : TokenPair Token) (store' : Store)
      → after_consuming jwt settings revocations answer new ≡ (ok pair, store')
      → (pair ≡ new) × (answer.1 ≡ store')
  after_consuming-ok (true, store) new pair store' h =
      (ok_inj (sym (ap (λ x. x.0) h)), ap (λ x. x.1) h)
  after_consuming-ok (false, store) new pair store' h = cc (ap (λ x. x.0) h)

  -- A rotation that goes through was asked for with a refresh token that verifies and whose tenant,
  -- actor, type of actor and session are those of the caller; it answers with a new pair for that
  -- identity, and the token that it took is revoked.
  pub rotate_token_pair-ok :
      (store store' : Store) (token : Token) (who : TokenSubject) (now issued : Time)
      (access_id refresh_id : Uuid) (pair : TokenPair Token)
      → rotate_token_pair jwt settings revocations store token who now issued access_id refresh_id
        ≡ (ok pair, store')
      → Rotated store token who issued access_id refresh_id pair store'
  unfolding rotate_token_pair
  rotate_token_pair-ok store store' token who now issued access_id refresh_id pair h =
      from_checked (checked_identity jwt settings revocations store token who now) refl h
    where
      from_checked :
          (c : Checked RefreshTokenClaims)
          → checked_identity jwt settings revocations store token who now ≡ c
          → elim c [
            | err error ↦ (err error, store)
            | ok claims ↦
                after_consuming jwt settings revocations
                  (revocations.consume_refresh_token store
                    (rotation_of jwt settings revocations claims))
                  (issue_token_pair jwt settings revocations who issued access_id refresh_id)
          ]
            ≡ (ok pair, store')
          → Rotated store token who issued access_id refresh_id pair store'
      from_checked (err error) e k = cc (ap (λ x. x.0) k)
      from_checked (ok claims) e k =
          let (c, verified, h₁) =
            >>=-eq-ok (verify_refresh_token jwt settings revocations store token now) _ e in
          let (same, answer) =
            >>-eq-ok (raise_if (not (same_identity jwt settings revocations c who)) _) _ h₁ in
          let is_claims : c ≡ claims = ok_inj answer in
          let (is_new, is_store) = after_consuming-ok _ _ pair store' k in
          record {
            claims = claims;
            verified =
                subst (RefreshVerified jwt settings revocations store token) is_claims
                  (verify_refresh_token-ok jwt settings revocations store token now c verified);
            identity =
                subst (λ x. Matches x who) is_claims
                  (same_identity-Matches c who (not-false _ (passes _ _ same)));
            answer = is_new;
            consumed =
                subst (λ s. revocations.is_token_revoked s claims.token_id ≡ true) is_store
                  (revocations.consume_revokes store (rotation_of jwt settings revocations claims));
          }

  -- After a rotation of a refresh token has gone through, no rotation of the same token on the
  -- resulting store goes through, whoever asks and whenever.
  pub rotates_once :
      (store store' other : Store) (token : Token) (who who' : TokenSubject)
      (now now' issued issued' : Time) (access_id refresh_id access_id' refresh_id' : Uuid)
      (pair pair' : TokenPair Token)
      → rotate_token_pair jwt settings revocations store token who now issued access_id refresh_id
        ≡ (ok pair, store')
      → rotate_token_pair jwt settings revocations store' token who' now' issued' access_id'
          refresh_id'
        ≢ (ok pair', other)
  rotates_once store store' other token who who' now now' issued issued' access_id refresh_id
        access_id' refresh_id' pair pair' h k =
      let first =
        rotate_token_pair-ok store store' token who now issued access_id refresh_id pair h in
      let second =
        rotate_token_pair-ok store' other token who' now' issued' access_id' refresh_id' pair' k in
      let same_payload : first.verified.payload ≡ second.verified.payload =
        cc (first.verified.decoded, second.verified.decoded) in
      let same : first.claims ≡ second.claims =
        cc (same_payload, first.verified.read, second.verified.read) in
      let used =
        subst (λ (c : RefreshTokenClaims). revocations.is_token_revoked store' c.token_id ≡ true)
          same first.consumed in
      let live = second.verified.token_kept in cc (used, live)

  after_revoke_session :
      (store store' : Store) (token : Token) (now : Time) (claims : RefreshTokenClaims)
      → decode_refresh jwt settings revocations token now ≡ ok claims
      → suppress jwt settings revocations
          (revoke_session jwt settings revocations store token now)
          store
        ≡ store'
      → revocations.is_session_revoked store' claims.session_id ≡ true
  unfolding revoke_session
  after_revoke_session store store' token now claims h e =
      subst (λ s. revocations.is_session_revoked s claims.session_id ≡ true) (rw h at e)
        (revocations.revoke_session_revokes store _)

  pub session_ended :
      (store : Store) (access : Option Token) (refresh : Token) (now later : Time)
      (claims : RefreshTokenClaims)
      → decode_refresh jwt settings revocations refresh later ≡ ok claims
      → revocations.is_session_revoked
          (logout jwt settings revocations store access (some refresh) now later)
          claims.session_id
        ≡ true
  unfolding logout
  session_ended store none refresh now later claims h =
      after_revoke_session store _ refresh later claims h refl
  session_ended store (some access) refresh now later claims h =
      after_revoke_session _ _ refresh later claims h refl

  -- After a logout with a refresh token that still decodes, an access token that verifies belongs
  -- to another session.
  pub logout_ends_session :
      (store : Store) (access : Option Token) (refresh token : Token) (now later at_last : Time)
      (claims : RefreshTokenClaims) (others : AccessTokenClaims)
      → decode_refresh jwt settings revocations refresh later ≡ ok claims
      → verify_access_token jwt settings revocations
          (logout jwt settings revocations store access (some refresh) now later)
          token
          at_last
        ≡ ok others
      → others.session_id ≢ claims.session_id
  logout_ends_session store access refresh token now later at_last claims others h k same =
      let ended = session_ended store access refresh now later claims h in
      let facts = verify_access_token-ok jwt settings revocations _ token at_last others k in
      let live =
        subst
          (λ id.
            revocations.is_session_revoked
              (logout jwt settings revocations store access (some refresh) now later) id
            ≡ false)
          same facts.session_kept in
      cc (ended, live)
