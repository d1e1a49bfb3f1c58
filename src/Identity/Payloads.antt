-- ===== src/Identity/Payloads.antt =====
-- The payloads of tokens, as `_encode` and `_decode` of
-- src/aipy/modules/identity/infrastructure/jwt_tokens.py make and read them, and PyJWT, which is not
-- part of the repository and is a parameter.
use aipy.Prelude.{
  ℕ, String, Bool, false, Option, none, some, List, [], ◌*◌, ◌/◌, ◌≡◌, ◌&&◌, if◌then◌else◌, is_none,
}
use aipy.Security.{Uuid, ActorType}
use aipy.Identity.Claims.{TokenType, token_type_value, AccessTokenClaims, RefreshTokenClaims, Time}

-- The payload of a token. The claims that PyJWT is told to require are there; `iat` and `exp` are
-- seconds. A UUID stands for its text.
pub record Payload : Type 0 where
  pub iss : String
  pub aud : String
  pub sub : Uuid
  pub tenant_id : Uuid
  pub actor_type : ActorType
  pub sid : Uuid
  pub jti : Uuid
  pub token_type : String
  pub iat : ℕ
  pub exp : ℕ
  pub role_ids : Option (List Uuid)
  pub team_ids : Option (List Uuid)
  pub workspace_ids : Option (List Uuid)

-- `jwt.encode` and `jwt.decode` as PyJWT documents them, for a secret and an algorithm: what was
-- encoded decodes under the same secret for its issuer and audience, and only for those. No token is
-- the empty text.
pub record JwtLibrary (Token : Type 0) : Type 0 where
  pub empty : Token → Bool
  pub encode : Payload → String → String → Token
  pub decode : Token → String → String → String → String → Option Payload
  pub encode_not_empty :
      (p : Payload) (secret algorithm : String) → empty (encode p secret algorithm) ≡ false
  pub decode_encode :
      (p : Payload) (secret algorithm : String)
      → decode (encode p secret algorithm) secret algorithm p.iss p.aud ≡ some p
  pub decode_checks :
      (token : Token) (secret algorithm issuer audience : String) (p : Payload)
      → decode token secret algorithm issuer audience ≡ some p
      → (p.iss ≡ issuer) × (p.aud ≡ audience)

-- `int(moment.timestamp())`, and the moment that a claim in seconds stands for.
abbrev pub timestamp : Time → ℕ
timestamp t = t / 1000000

abbrev pub from_timestamp : ℕ → Time
from_timestamp seconds = seconds * 1000000

-- `payload` of `_encode`
abbrev pub access_payload : AccessTokenClaims → Payload
access_payload claims = record {
  iss = claims.issuer;
  aud = claims.audience;
  sub = claims.actor_id;
  tenant_id = claims.tenant_id;
  actor_type = claims.actor_type;
  sid = claims.session_id;
  jti = claims.token_id;
  token_type = token_type_value TokenType.access;
  iat = timestamp claims.issued_at;
  exp = timestamp claims.expires_at;
  role_ids = some claims.role_ids;
  team_ids = some claims.team_ids;
  workspace_ids = some claims.workspace_ids;
}

abbrev pub refresh_payload : RefreshTokenClaims → Payload
refresh_payload claims = record {
  iss = claims.issuer;
  aud = claims.audience;
  sub = claims.actor_id;
  tenant_id = claims.tenant_id;
  actor_type = claims.actor_type;
  sid = claims.session_id;
  jti = claims.token_id;
  token_type = token_type_value TokenType.refresh;
  iat = timestamp claims.issued_at;
  exp = timestamp claims.expires_at;
  role_ids = none;
  team_ids = none;
  workspace_ids = none;
}

-- `model_validate(_normalize_payload(payload))`. The lists of an access token default to none;
-- the class of refresh tokens forbids them.
abbrev ids_or_none : Option (List Uuid) → List Uuid
ids_or_none none = []
ids_or_none (some ids) = ids

abbrev pub access_claims : Payload → AccessTokenClaims
access_claims p = record {
  subject = record {
    tenant_id = p.tenant_id;
    actor_id = p.sub;
    actor_type = p.actor_type;
    session_id = p.sid;
    role_ids = ids_or_none p.role_ids;
    team_ids = ids_or_none p.team_ids;
    workspace_ids = ids_or_none p.workspace_ids;
  };
  issuer = p.iss;
  audience = p.aud;
  token_id = p.jti;
  issued_at = from_timestamp p.iat;
  expires_at = from_timestamp p.exp;
}

abbrev pub refresh_claims : Payload → Option RefreshTokenClaims
refresh_claims p =
    if is_none p.role_ids && (is_none p.team_ids && is_none p.workspace_ids)
    then some (record {
      issuer = p.iss;
      audience = p.aud;
      tenant_id = p.tenant_id;
      actor_id = p.sub;
      actor_type = p.actor_type;
      session_id = p.sid;
      token_id = p.jti;
      issued_at = from_timestamp p.iat;
      expires_at = from_timestamp p.exp;
    })
    else none
