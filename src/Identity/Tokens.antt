-- ===== src/Identity/Tokens.antt =====
-- `JwtTokenService` of src/aipy/modules/identity/infrastructure/jwt_tokens.py, and the logout of
-- apps/api/routes/auth.py. What the service reads from its clock and from `uuid4` are arguments, one
-- for each reading; the store of revocations is passed on.
pub mod Verified
pub mod Rotation
pub mod Issued
mod Tests
use aipy.Prelude.{
  String, Bool, true, false, not, Option, none, some, ◌+◌, ◌&&◌, ◌==◌, if◌then◌else◌, ltb, leb,
  string_eq, nat_eq,
}
use aipy.Prelude.Outcomes.{ok, err, ◌>>=◌, ◌>>◌}
use aipy.Security.{Uuid, ActorType, TenantContext}
use aipy.Identity.Claims.{
  TokenType, token_type_value, TokenSubject, AccessTokenClaims, RefreshTokenClaims, TokenPair,
  JwtTokenSettings, TokenRevocation, TokenError, Checked, Time,
}
use aipy.Identity.Payloads.{
  Payload, JwtLibrary, access_payload, refresh_payload, access_claims, refresh_claims,
}
use aipy.Identity.Revocations.{RevocationRepository}

abbrev pub same_actor_type : ActorType → ActorType → Bool
same_actor_type ActorType.user ActorType.user = true
same_actor_type ActorType.service ActorType.service = true
same_actor_type _ _ = false

abbrev pub raise_if : Bool → TokenError → Checked (Unit {0})
raise_if test error = if test then err error else ok tt

abbrev pub or_raise : {A : Type 0} → Option A → TokenError → Checked A
or_raise none error = err error
or_raise (some a) error = ok a

module _ {Store Token : Type 0} (jwt : JwtLibrary Token) (settings : JwtTokenSettings)
    (revocations : RevocationRepository Store) where
  -- The part of `_decode` up to the claims.
  unfoldable pub read_payload : Token → TokenType → Checked Payload
  read_payload token expected = do
    raise_if (jwt.empty token) (TokenError.invalid_token "Token must not be empty")
    payload ←
        or_raise
          (jwt.decode token settings.secret_key settings.algorithm settings.issuer
            settings.audience)
          (TokenError.invalid_token "Token is invalid")
    raise_if (not (payload.token_type == token_type_value expected))
        (TokenError.invalid_token "Unexpected token type")
    ok payload

  -- Its end. `expires_at <= now - clock_skew` is written without the subtraction.
  unfoldable pub check_window : Time → Time → Time → Checked (Unit {0})
  check_window issued_at expires_at now = do
    raise_if (leb (expires_at + settings.clock_skew) now)
        (TokenError.token_expired "Token has expired")
    raise_if (ltb (now + settings.clock_skew) issued_at)
        (TokenError.invalid_token "Token was issued in the future")

  -- `_decode`, for either class.
  unfoldable pub decode_access : Token → Time → Checked AccessTokenClaims
  unfolding read_payload check_window
  decode_access token now = do
    payload ← read_payload token TokenType.access
    check_window (access_claims payload).issued_at (access_claims payload).expires_at now
    ok (access_claims payload)

  unfoldable pub decode_refresh : Token → Time → Checked RefreshTokenClaims
  unfolding read_payload check_window
  decode_refresh token now = do
    payload ← read_payload token TokenType.refresh
    claims ← or_raise (refresh_claims payload) (TokenError.invalid_token "Token is invalid")
    check_window claims.issued_at claims.expires_at now
    ok claims

  -- `_require_not_revoked`
  unfoldable pub require_not_revoked : Store → Uuid → Uuid → Checked (Unit {0})
  require_not_revoked store token_id session_id = do
    raise_if (revocations.is_token_revoked store token_id)
        (TokenError.token_revoked "Token has been revoked")
    raise_if (revocations.is_session_revoked store session_id)
        (TokenError.token_revoked "Session has been revoked")

  unfoldable pub verify_access_token : Store → Token → Time → Checked AccessTokenClaims
  unfolding decode_access require_not_revoked
  verify_access_token store token now = do
    claims ← decode_access token now
    require_not_revoked store claims.token_id claims.session_id
    ok claims

  unfoldable pub verify_refresh_token : Store → Token → Time → Checked RefreshTokenClaims
  unfolding decode_refresh require_not_revoked
  verify_refresh_token store token now = do
    claims ← decode_refresh token now
    require_not_revoked store claims.token_id claims.session_id
    ok claims

  -- The claims of `issue_token_pair`; the identifiers come from `uuid4`.
  abbrev pub new_access_claims : TokenSubject → Time → Uuid → AccessTokenClaims
  new_access_claims who now token_id = record {
    subject = who;
    issuer = settings.issuer;
    audience = settings.audience;
    token_id = token_id;
    issued_at = now;
    expires_at = now + settings.access_token_ttl;
  }

  abbrev pub new_refresh_claims : TokenSubject → Time → Uuid → RefreshTokenClaims
  new_refresh_claims who now token_id = record {
    issuer = settings.issuer;
    audience = settings.audience;
    tenant_id = who.tenant_id;
    actor_id = who.actor_id;
    actor_type = who.actor_type;
    session_id = who.session_id;
    token_id = token_id;
    issued_at = now;
    expires_at = now + settings.refresh_token_ttl;
  }

  abbrev pub issue_token_pair : TokenSubject → Time → Uuid → Uuid → TokenPair Token
  issue_token_pair who now access_id refresh_id = record {
    access_token =
        jwt.encode (access_payload (new_access_claims who now access_id)) settings.secret_key
          settings.algorithm;
    refresh_token =
        jwt.encode (refresh_payload (new_refresh_claims who now refresh_id)) settings.secret_key
          settings.algorithm;
    access_expires_at = now + settings.access_token_ttl;
    refresh_expires_at = now + settings.refresh_token_ttl;
  }

  abbrev pub same_identity : RefreshTokenClaims → TokenSubject → Bool
  same_identity claims who =
      claims.tenant_id == who.tenant_id
      && (claims.actor_id == who.actor_id
          && (same_actor_type claims.actor_type who.actor_type
              && claims.session_id == who.session_id))

  abbrev pub rotation_of : RefreshTokenClaims → TokenRevocation
  rotation_of claims = record {
    token_id = claims.token_id;
    session_id = claims.session_id;
    expires_at = claims.expires_at;
    reason = "refresh_rotation";
  }

  -- `rotate_token_pair` behind its checks, on what the store answered.
  abbrev pub after_consuming : Bool × Store → TokenPair Token → Checked (TokenPair Token) × Store
  after_consuming (true, store) pair = (ok pair, store)
  after_consuming (false, store) pair =
      (err (TokenError.token_revoked "Refresh token has already been used"), store)

  abbrev pub checked_identity : Store → Token → TokenSubject → Time → Checked RefreshTokenClaims
  checked_identity store token who now = do
    claims ← verify_refresh_token store token now
    raise_if (not (same_identity claims who))
        (TokenError.invalid_token "Refresh token does not match the current identity")
    ok claims

  -- The clock is read to decode the token, and again to issue the new pair.
  unfoldable pub rotate_token_pair :
      Store → Token → TokenSubject → Time → Time → Uuid → Uuid → Checked (TokenPair Token) × Store
  unfolding verify_refresh_token
  rotate_token_pair store token who now issued access_id refresh_id =
      elim (checked_identity store token who now) [
        | err error ↦ (err error, store)
        | ok claims ↦
            after_consuming (revocations.consume_refresh_token store (rotation_of claims))
              (issue_token_pair who issued access_id refresh_id)
      ]

  unfoldable pub tenant_context_from_access_token :
      Store → Token → String → Time → Checked TenantContext
  unfolding verify_access_token
  tenant_context_from_access_token store token request_id now = do
    claims ← verify_access_token store token now
    ok (record {
      tenant_id = claims.tenant_id;
      actor = record {
        actor_id = claims.actor_id;
        actor_type = claims.actor_type;
        role_ids = claims.role_ids;
        team_ids = claims.team_ids;
        workspace_ids = claims.workspace_ids;
        session_id = some claims.session_id;
      };
      request_id = request_id;
    })

  -- With the reason that every caller gives.
  unfoldable pub revoke_access_token : Store → Token → Time → Checked Store
  unfolding decode_access
  revoke_access_token store token now = do
    claims ← decode_access token now
    ok (
        revocations.revoke_token store (record {
          token_id = claims.token_id;
          session_id = claims.session_id;
          expires_at = claims.expires_at;
          reason = "logout";
        }))

  unfoldable pub revoke_session : Store → Token → Time → Checked Store
  unfolding decode_refresh
  revoke_session store token now = do
    claims ← decode_refresh token now
    ok (
        revocations.revoke_session store (record {
          session_id = claims.session_id;
          expires_at = claims.expires_at;
          reason = "logout";
        }))

  -- `with suppress(*_TOKEN_ERRORS)` around a revocation.
  abbrev pub suppress : Checked Store → Store → Store
  suppress (ok store) old = store
  suppress (err error) old = old

  -- `logout` of apps/api/routes/auth.py, on the cookies that the request carries.
  unfoldable pub logout : Store → Option Token → Option Token → Time → Time → Store
  unfolding revoke_access_token revoke_session
  logout store none none now later = store
  logout store (some access) none now later = suppress (revoke_access_token store access now) store
  logout store none (some refresh) now later = suppress (revoke_session store refresh later) store
  logout store (some access) (some refresh) now later =
      let first = suppress (revoke_access_token store access now) store in
      suppress (revoke_session first refresh later) first
