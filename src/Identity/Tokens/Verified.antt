-- ===== src/Identity/Tokens/Verified.antt =====
-- When a token verifies (`verify_access_token`, `verify_refresh_token` of
-- src/aipy/modules/identity/infrastructure/jwt_tokens.py).
use aipy.Prelude.{
  refl, sym, ap, subst, Bool, true, false, not, Option, none, some, arith, eq_iff, ◌+◌, ◌≤◌, ◌<◌,
  ◌≡◌, ◌∙◌, ◌≢◌, ◌==◌, leb, not-false, string_eq, nat_eq,
}
use aipy.Prelude.Outcomes.{ok, >>=-eq-ok, >>-eq-ok, ok_inj}
use aipy.Identity.Claims.{
  TokenType, token_type_value, AccessTokenClaims, RefreshTokenClaims, JwtTokenSettings, TokenError,
  Time,
}
use aipy.Identity.Revocations.{RevocationRepository}
use aipy.Identity.Payloads.{Payload, JwtLibrary, access_claims, refresh_claims}
use aipy.Identity.Tokens.{
  raise_if, or_raise, read_payload, check_window, decode_access, decode_refresh,
  require_not_revoked, verify_access_token, verify_refresh_token,
}
use aipy.Security.{Uuid}

pub passes : (test : Bool) (error : TokenError) → raise_if test error ≡ ok tt → test ≡ false
passes true error h = cc
passes false error h = refl

pub found :
    {A : Type 0} (o : Option A) (error : TokenError) {a : A} → or_raise o error ≡ ok a → o ≡ some a
found none error h = cc
found (some b) error h = cc

module _ {Store Token : Type 0} (jwt : JwtLibrary Token) (settings : JwtTokenSettings)
    (revocations : RevocationRepository Store) where
  abbrev pub Decodes : Token → Payload → Type 0
  Decodes token p =
      jwt.decode token settings.secret_key settings.algorithm settings.issuer settings.audience
      ≡ some p

  pub read_payload-ok :
      (token : Token) (expected : TokenType) (p : Payload)
      → read_payload jwt settings revocations token expected ≡ ok p
      → Decodes token p × (p.token_type ≡ token_type_value expected)
  unfolding read_payload
  read_payload-ok token expected p h =
      let (filled, h₁) = >>-eq-ok (raise_if (jwt.empty token) _) _ h in
      let (q, decoded, h₂) =
        >>=-eq-ok
          (or_raise
            (jwt.decode token settings.secret_key settings.algorithm settings.issuer
              settings.audience)
            _)
          _ h₁ in
      let (kind, h₃) =
        >>-eq-ok (raise_if (not (q.token_type == token_type_value expected)) _) _ h₂ in
      subst (λ x. Decodes token x × (x.token_type ≡ token_type_value expected)) (ok_inj h₃)
        (
          found _ _ decoded,
          (eq_iff q.token_type (token_type_value expected)).0 (not-false _ (passes _ _ kind)),
        )

  pub check_window-ok :
      (issued expires now : Time)
      → check_window jwt settings revocations issued expires now ≡ ok tt
      → (now < expires + settings.clock_skew) × (issued ≤ now + settings.clock_skew)
  unfolding check_window
  check_window-ok issued expires now h =
      let (alive, past) = >>-eq-ok (raise_if (leb (expires + settings.clock_skew) now) _) _ h in
      let e = passes _ _ alive in let f = passes _ _ past in (ground (arith, e), ground (arith, f))

  pub require_not_revoked-ok :
      (store : Store) (token_id session_id : Uuid)
      → require_not_revoked jwt settings revocations store token_id session_id ≡ ok tt
      → (revocations.is_token_revoked store token_id ≡ false)
        × (revocations.is_session_revoked store session_id ≡ false)
  unfolding require_not_revoked
  require_not_revoked-ok store token_id session_id h =
      let (token, session) =
        >>-eq-ok (raise_if (revocations.is_token_revoked store token_id) _) _ h in
      (passes _ _ token, passes _ _ session)

  -- What an accepted access token has passed.
  pub record Verified (store : Store) (token : Token) (now : Time) (claims : AccessTokenClaims)
      : Type 0 where
    pub payload : Payload
    pub decoded : Decodes token payload
    pub kind : payload.token_type ≡ "access"
    pub read : claims ≡ access_claims payload
    pub issuer : claims.issuer ≡ settings.issuer
    pub audience : claims.audience ≡ settings.audience
    pub alive : now < claims.expires_at + settings.clock_skew
    pub begun : claims.issued_at ≤ now + settings.clock_skew
    pub token_kept : revocations.is_token_revoked store claims.token_id ≡ false
    pub session_kept : revocations.is_session_revoked store claims.session_id ≡ false

  -- An access token that verifies decodes under the secret, for this issuer and audience, as an
  -- access token; it is within its time, up to the skew, and neither it nor its session is revoked.
  pub verify_access_token-ok :
      (store : Store) (token : Token) (now : Time) (claims : AccessTokenClaims)
      → verify_access_token jwt settings revocations store token now ≡ ok claims
      → Verified store token now claims
  unfolding verify_access_token decode_access
  verify_access_token-ok store token now claims h =
      let (c, decoded, h₁) = >>=-eq-ok (decode_access jwt settings revocations token now) _ h in
      let (live, answer) =
        >>-eq-ok (require_not_revoked jwt settings revocations store c.token_id c.session_id) _
          h₁ in
      let (p, read, h₂) =
        >>=-eq-ok (read_payload jwt settings revocations token TokenType.access) _ decoded in
      let (window, same) =
        >>-eq-ok
          (check_window jwt settings revocations (access_claims p).issued_at
            (access_claims p).expires_at now)
          _ h₂ in
      let (opened, kind) = read_payload-ok token TokenType.access p read in
      let (issuer, audience) = jwt.decode_checks _ _ _ _ _ _ opened in
      let (alive, begun) = check_window-ok _ _ _ window in
      let is_c : access_claims p ≡ c = ok_inj same in
      let (token_kept, session_kept) = require_not_revoked-ok store c.token_id c.session_id live in
      subst (Verified store token now) (is_c ∙ ok_inj answer) (record {
        payload = p;
        decoded = opened;
        kind = kind;
        read = refl;
        issuer = issuer;
        audience = audience;
        alive = alive;
        begun = begun;
        token_kept =
            subst (λ (x : AccessTokenClaims). revocations.is_token_revoked store x.token_id ≡ false)
              (sym is_c) token_kept;
        session_kept =
            subst
              (λ (x : AccessTokenClaims). revocations.is_session_revoked store x.session_id ≡ false)
              (sym is_c) session_kept;
      })

  pub record RefreshVerified (store : Store) (token : Token) (claims : RefreshTokenClaims)
      : Type 0 where
    pub payload : Payload
    pub decoded : Decodes token payload
    pub kind : payload.token_type ≡ "refresh"
    pub read : refresh_claims payload ≡ some claims
    pub token_kept : revocations.is_token_revoked store claims.token_id ≡ false
    pub session_kept : revocations.is_session_revoked store claims.session_id ≡ false

  pub decode_refresh-ok :
      (token : Token) (now : Time) (claims : RefreshTokenClaims)
      → decode_refresh jwt settings revocations token now ≡ ok claims
      → (p : Payload) × Decodes token p
        × (p.token_type ≡ "refresh")
        × (refresh_claims p ≡ some claims)
  unfolding decode_refresh
  decode_refresh-ok token now claims h =
      let (p, read, h₁) =
        >>=-eq-ok (read_payload jwt settings revocations token TokenType.refresh) _ h in
      let (c, valid, h₂) = >>=-eq-ok (or_raise (refresh_claims p) _) _ h₁ in
      let (window, same) =
        >>-eq-ok (check_window jwt settings revocations c.issued_at c.expires_at now) _ h₂ in
      let (opened, kind) = read_payload-ok token TokenType.refresh p read in
      (p, opened, kind, found _ _ valid ∙ ap some (ok_inj same))

  pub verify_refresh_token-ok :
      (store : Store) (token : Token) (now : Time) (claims : RefreshTokenClaims)
      → verify_refresh_token jwt settings revocations store token now ≡ ok claims
      → RefreshVerified store token claims
  unfolding verify_refresh_token
  verify_refresh_token-ok store token now claims h =
      let (c, decoded, h₁) = >>=-eq-ok (decode_refresh jwt settings revocations token now) _ h in
      let (live, answer) =
        >>-eq-ok (require_not_revoked jwt settings revocations store c.token_id c.session_id) _
          h₁ in
      let (p, opened, kind, read) = decode_refresh-ok token now c decoded in
      let (token_kept, session_kept) = require_not_revoked-ok store c.token_id c.session_id live in
      subst (RefreshVerified store token) (ok_inj answer) (record {
        payload = p;
        decoded = opened;
        kind = kind;
        read = read;
        token_kept = token_kept;
        session_kept = session_kept;
      })

  -- A token that decodes as a refresh token never verifies as an access token, whenever it is
  -- presented.
  pub refresh_is_no_access :
      (store : Store) (token : Token) (now later : Time) (claims : RefreshTokenClaims)
      (claims' : AccessTokenClaims)
      → decode_refresh jwt settings revocations token now ≡ ok claims
      → verify_access_token jwt settings revocations store token later ≢ ok claims'
  refresh_is_no_access store token now later claims claims' h k =
      let (p, opened, kind, read) = decode_refresh-ok token now claims h in
      let facts = verify_access_token-ok store token later claims' k in
      let same : p ≡ facts.payload = cc (opened, facts.decoded) in
      let clash : "refresh" ≡ "access" =
        sym kind ∙ ap (λ (q : Payload). q.token_type) same ∙ facts.kind in
      ground (arith, eq_iff "refresh" "access", clash)
