-- ===== src/Identity/Claims.antt =====
-- The value objects of src/aipy/modules/identity/domain/models.py, and the errors of
-- src/aipy/shared/security/errors.py. Times and spans are numbers of microseconds.
use aipy.Prelude.{
  ℕ, suc, String, not, Option, none, some, List, [], ◌||◌, ◌∷◌, ◌==◌, if◌then◌else◌, ltb, contains,
  string_eq, nat_eq,
}
use aipy.Prelude.Outcomes.{Outcome}
use aipy.Security.{Uuid, ActorType}

abbrev pub Time : Type 0
Time = ℕ

pub data TokenType : Type 0 where
  access refresh : TokenType

abbrev pub token_type_value : TokenType → String
token_type_value TokenType.access = "access"
token_type_value TokenType.refresh = "refresh"

pub record TokenSubject : Type 0 where
  pub tenant_id : Uuid
  pub actor_id : Uuid
  pub actor_type : ActorType
  pub session_id : Uuid
  pub role_ids : List Uuid
  pub team_ids : List Uuid
  pub workspace_ids : List Uuid

-- The `token_type` of a claims class is a literal, and is not stored.
pub record AccessTokenClaims : Type 0 where
  pub subject : TokenSubject
  pub open subject use *
  pub issuer : String
  pub audience : String
  pub token_id : Uuid
  pub issued_at : Time
  pub expires_at : Time

pub record RefreshTokenClaims : Type 0 where
  pub issuer : String
  pub audience : String
  pub tenant_id : Uuid
  pub actor_id : Uuid
  pub actor_type : ActorType
  pub session_id : Uuid
  pub token_id : Uuid
  pub issued_at : Time
  pub expires_at : Time

-- A token is a text that PyJWT alone reads, and so of a type of PyJWT's.
pub record TokenPair (Token : Type 0) : Type 0 where
  pub access_token : Token
  pub refresh_token : Token
  pub access_expires_at : Time
  pub refresh_expires_at : Time

pub record JwtTokenSettings : Type 0 where
  pub secret_key : String
  pub issuer : String
  pub audience : String
  pub algorithm : String
  pub access_token_ttl : Time
  pub refresh_token_ttl : Time
  pub clock_skew : Time

-- The validators of the class; spans are not negative here.
abbrev characters : String → ℕ
characters String.[] = 0
characters (String.◌∷◌ c s) = suc (characters s)

unfoldable pub make_settings : JwtTokenSettings → Option JwtTokenSettings
make_settings settings =
    if ltb (characters settings.secret_key) 32
    then none
    else if settings.issuer == "" || settings.audience == ""
    then none
    else if not (contains ("HS256" ∷ "HS384" ∷ "HS512" ∷ []) settings.algorithm)
    then none
    else if settings.access_token_ttl == 0 || settings.refresh_token_ttl == 0
    then none
    else some settings

pub record TokenRevocation : Type 0 where
  pub token_id : Uuid
  pub session_id : Uuid
  pub expires_at : Time
  pub reason : String

pub record SessionRevocation : Type 0 where
  pub session_id : Uuid
  pub expires_at : Time
  pub reason : String

-- Each with the message of the exception.
pub data TokenError : Type 0 where
  invalid_token token_expired token_revoked : String → TokenError

abbrev pub Checked : Type 0 → Type 0
Checked A = Outcome TokenError A
