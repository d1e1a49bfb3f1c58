-- ===== src/Identity/Tokens/Issued.antt =====
-- What `issue_token_pair` of src/aipy/modules/identity/infrastructure/jwt_tokens.py hands out is
-- accepted, as the identity that it was issued for.
use aipy.Prelude.{String, refl, false, some, arith, ◌+◌, ◌≤◌, ◌<◌, ◌≡◌}
use aipy.Prelude.Outcomes.{ok}
use aipy.Security.{Uuid, TenantContext}
use aipy.Identity.Claims.{TokenType, TokenSubject, AccessTokenClaims, JwtTokenSettings, Time}
use aipy.Identity.Revocations.{RevocationRepository}
use aipy.Identity.Payloads.{JwtLibrary, access_payload, timestamp, from_timestamp}
use aipy.Identity.Tokens.{
  new_access_claims, issue_token_pair, read_payload, check_window, verify_access_token,
  tenant_context_from_access_token, decode_access, require_not_revoked,
}

-- The claims as a token carries them, in whole seconds.
abbrev pub in_seconds : AccessTokenClaims → AccessTokenClaims
in_seconds claims = record claims {
  issued_at = from_timestamp (timestamp claims.issued_at);
  expires_at = from_timestamp (timestamp claims.expires_at);
}

-- The context of a request that carries a token of the subject.
abbrev pub context_for : TokenSubject → String → TenantContext
context_for who request_id = record {
  tenant_id = who.tenant_id;
  actor = record {
    actor_id = who.actor_id;
    actor_type = who.actor_type;
    role_ids = who.role_ids;
    team_ids = who.team_ids;
    workspace_ids = who.workspace_ids;
    session_id = some who.session_id;
  };
  request_id = request_id;
}

module _ {Store Token : Type 0} (jwt : JwtLibrary Token) (settings : JwtTokenSettings)
    (revocations : RevocationRepository Store) where
  abbrev encoded : AccessTokenClaims → Token
  encoded claims = jwt.encode (access_payload claims) settings.secret_key settings.algorithm

  issued_is_read :
      (who : TokenSubject) (now : Time) (id : Uuid)
      → read_payload jwt settings revocations
          (encoded (new_access_claims jwt settings revocations who now id))
          TokenType.access
        ≡ ok (access_payload (new_access_claims jwt settings revocations who now id))
  unfolding read_payload
  issued_is_read who now id =
      let claims = new_access_claims jwt settings revocations who now id in
      let p = access_payload claims in
      let filled = jwt.encode_not_empty p settings.secret_key settings.algorithm in
      let decoded = jwt.decode_encode p settings.secret_key settings.algorithm in
      rw (filled, decoded) refl

  issued_is_current :
      (issued expires later : Time)
      → issued ≤ later
      → later < expires + settings.clock_skew
      → check_window jwt settings revocations (from_timestamp (timestamp issued)) expires later
        ≡ ok tt
  unfolding check_window
  issued_is_current issued expires later begun alive = ground arith

  -- From its issue until it expires, up to the skew, and while neither it nor its session is
  -- revoked, an issued access token verifies with the claims that it was issued with, in whole
  -- seconds.
  pub issued_token_verifies :
      (store : Store) (who : TokenSubject) (now later : Time) (access_id refresh_id : Uuid)
      → now ≤ later
      → later < from_timestamp (timestamp (now + settings.access_token_ttl)) + settings.clock_skew
      → revocations.is_token_revoked store access_id ≡ false
      → revocations.is_session_revoked store who.session_id ≡ false
      → verify_access_token jwt settings revocations store
          (issue_token_pair jwt settings revocations who now access_id refresh_id).access_token
          later
        ≡ ok (in_seconds (new_access_claims jwt settings revocations who now access_id))
  unfolding verify_access_token decode_access require_not_revoked
  issued_token_verifies store who now later access_id refresh_id begun alive token session =
      let read = issued_is_read who now access_id in
      let current =
        issued_is_current now (from_timestamp (timestamp (now + settings.access_token_ttl))) later
          begun alive in
      rw (read, current, token, session) refl

  -- From its issue until it expires, up to the skew, and while neither it nor its session is
  -- revoked, an issued access token makes the request as the subject that it was issued for.
  pub issued_token_identifies :
      (store : Store) (who : TokenSubject) (now later : Time) (access_id refresh_id : Uuid)
      (request_id : String)
      → now ≤ later
      → later < from_timestamp (timestamp (now + settings.access_token_ttl)) + settings.clock_skew
      → revocations.is_token_revoked store access_id ≡ false
      → revocations.is_session_revoked store who.session_id ≡ false
      → tenant_context_from_access_token jwt settings revocations store
          (issue_token_pair jwt settings revocations who now access_id refresh_id).access_token
          request_id
          later
        ≡ ok (context_for who request_id)
  unfolding tenant_context_from_access_token
  issued_token_identifies store who now later access_id refresh_id request_id begun alive token
        session =
      rw (issued_token_verifies store who now later access_id refresh_id begun alive token session)
        refl
