-- ===== src/Api/Sessions.antt =====
-- The routes `login` and `refresh` of apps/api/routes/auth.py, over the users (Accounts), the lockout
-- and the token service. The readings of the clock and the answers of `uuid4` are arguments.
pub mod Accounts
pub mod Entered
pub mod LockedOut
pub mod Refreshed
mod Tests
use aipy.Prelude.{
  ℕ, String, Bool, true, false, Option, none, some, List, [], ◌-◌, ◌/◌, ◌∷◌, if◌then◌else◌, ltb,
  strip,
}
use aipy.Prelude.Options.{◌>>=◌, ◌>>◌, require}
use aipy.Prelude.Sorting.{order_by}
use aipy.Security.{Uuid, ActorType}
use aipy.Organization.{Tenant, AppUser, TenantMembership, Workspace}
use aipy.Authorization.Catalogue.{resolve_role, permissions_for_role}
use aipy.Authorization.Repository.{Tables}
use aipy.Identity.Claims.{
  Time, TokenSubject, RefreshTokenClaims, TokenPair, JwtTokenSettings, TokenError, Checked,
}
use aipy.Identity.Payloads.{JwtLibrary}
use aipy.Identity.Revocations.{RevocationRepository}
use aipy.Identity.Tokens.{issue_token_pair, rotate_token_pair, verify_refresh_token}
use aipy.Api.Errors.{Result, Failure, Outcome, ok, err}
use aipy.Api.Sessions.Accounts.{
  Directory, Texts, seen_at, write_user, authenticate, TenantSession, build_session,
}
use aipy.Api.Rows.{next_version}

-- `LoginLockout` of src/aipy/modules/identity/domain/ports.py.
pub record LoginLockout (L : Type 0) : Type 0 where
  pub is_locked : L → String → Time → Bool × L
  pub record_failure : L → String → Time → Time → L
  pub reset : L → String → L

-- A cookie that `_set_auth_cookies` sets: HTTP only, same site `lax`.
pub record SetCookie (Token : Type 0) : Type 0 where
  pub key : String
  pub value : Token
  pub secure : Bool
  pub path : String
  pub max_age : ℕ

-- `_cookie_max_age`: whole seconds, at least one.
unfoldable pub cookie_max_age : Time → Time → ℕ
cookie_max_age expires_at now =
    let seconds = (expires_at - now) / 1000000 in if ltb seconds 1 then 1 else seconds

-- `_set_auth_cookies`, with a reading of the clock for each cookie.
abbrev pub auth_cookies :
    {Token : Type 0} → TokenPair Token → Bool → Time → Time → List (SetCookie Token)
auth_cookies pair secure now later =
    record {
      key = "access_token";
      value = pair.access_token;
      secure = secure;
      path = "/";
      max_age = cookie_max_age pair.access_expires_at now;
    }
    ∷ record {
      key = "refresh_token";
      value = pair.refresh_token;
      secure = secure;
      path = "/api/v1/auth";
      max_age = cookie_max_age pair.refresh_expires_at later;
    }
    ∷ []

-- What a route answers, with the cookies that it sets.
pub record Entry (Token : Type 0) : Type 0 where
  pub session : TenantSession
  pub pair : TokenPair Token
  pub cookies : List (SetCookie Token)

-- `if session is None: raise HTTPException(…)`; an exception sets no cookies.
abbrev pub enter :
    {Token : Type 0}
    → Option TenantSession
    → TokenPair Token
    → List (SetCookie Token)
    → Result (Entry Token)
enter none pair cookies = err (Failure.http 401 "tenant or workspace is unavailable")
enter (some session) pair cookies =
    ok (record { session = session; pair = pair; cookies = cookies })

-- The readings of the clock in a login, in their order; a failure reads its own two.
pub record LoginTimes : Type 0 where
  pub at_lock : Time
  pub at_login : Time
  pub at_failure : Time
  pub at_deadline : Time
  pub at_issue : Time
  pub at_access_cookie : Time
  pub at_refresh_cookie : Time

-- What `uuid4` answers.
pub record LoginIds : Type 0 where
  pub session_id : Uuid
  pub access_id : Uuid
  pub refresh_id : Uuid

module _ {L Store Token : Type 0} (lockout : LoginLockout L) (texts : Texts)
    (jwt : JwtLibrary Token) (settings : JwtTokenSettings)
    (revocations : RevocationRepository Store) (secure : Bool) where
  -- `_lockout_key`
  abbrev pub lockout_key : String → String
  lockout_key email = texts.lower (strip email)

  -- `login`, once the key is not locked.
  abbrev pub after_authenticate :
      Option (TokenSubject × Directory)
      → String
      → LoginTimes
      → LoginIds
      → L
      → Directory
      → Result (Entry Token) × (L × Directory)
  after_authenticate none email times ids st db = (
    err (Failure.http 401 "invalid email or password"),
    (lockout.record_failure st (lockout_key email) times.at_failure times.at_deadline, db),
  )
  after_authenticate (some (subject, db')) email times ids st db =
      let pair =
        issue_token_pair jwt settings revocations subject times.at_issue ids.access_id
          ids.refresh_id in
      (
        enter (build_session db' subject.tenant_id subject.actor_id) pair
            (auth_cookies pair secure times.at_access_cookie times.at_refresh_cookie),
        (lockout.reset st (lockout_key email), db'),
      )

  -- `login`, on what `is_locked` answered.
  abbrev pub after_lock :
      Bool × L
      → String
      → String
      → LoginTimes
      → LoginIds
      → Directory
      → Result (Entry Token) × (L × Directory)
  after_lock (true, st) email password times ids db =
      (err (Failure.http 429 "too many failed login attempts"), (st, db))
  after_lock (false, st) email password times ids db =
      after_authenticate (authenticate texts db email password times.at_login ids.session_id) email
        times ids st db

  unfoldable pub login :
      String
      → String
      → LoginTimes
      → LoginIds
      → L
      → Directory
      → Result (Entry Token) × (L × Directory)
  unfolding authenticate build_session cookie_max_age
  login email password times ids st db =
      after_lock (lockout.is_locked st (lockout_key email) times.at_lock) email password times ids
        db

-- `str(exc)`
abbrev pub error_text : TokenError → String
error_text (TokenError.invalid_token message) = message
error_text (TokenError.token_expired message) = message
error_text (TokenError.token_revoked message) = message

-- The readings of the clock in a refresh, in their order.
pub record RefreshTimes : Type 0 where
  pub at_verify : Time
  pub at_rotate : Time
  pub at_issue : Time
  pub at_access_cookie : Time
  pub at_refresh_cookie : Time

-- `require_refresh_claims` of apps/api/dependencies.py, on what the token service answered.
abbrev pub claims_or_401 :
    {Token : Type 0} → Checked RefreshTokenClaims → Token → Result (Token × RefreshTokenClaims)
claims_or_401 (err error) token = err (Failure.http 401 (error_text error))
claims_or_401 (ok claims) token = ok (token, claims)

module _ {Store Token : Type 0} (jwt : JwtLibrary Token) (settings : JwtTokenSettings)
    (revocations : RevocationRepository Store) (secure : Bool) where
  -- `require_refresh_claims` of apps/api/dependencies.py.
  abbrev pub require_refresh_claims :
      Store → Option Token → Time → Result (Token × RefreshTokenClaims)
  require_refresh_claims store none now = err (Failure.http 401 "missing refresh token")
  require_refresh_claims store (some token) now =
      if jwt.empty token
      then err (Failure.http 401 "missing refresh token")
      else claims_or_401 (verify_refresh_token jwt settings revocations store token now) token

  abbrev pub subject_of : RefreshTokenClaims → TokenSubject
  subject_of claims = record {
    tenant_id = claims.tenant_id;
    actor_id = claims.actor_id;
    actor_type = claims.actor_type;
    session_id = claims.session_id;
    role_ids = [];
    team_ids = [];
    workspace_ids = [];
  }

  -- `refresh`, on what the rotation answered.
  abbrev pub after_rotation :
      Checked (TokenPair Token)
      → RefreshTokenClaims
      → RefreshTimes
      → Directory
      → Result (Entry Token)
  after_rotation (err error) claims times db = err (Failure.http 401 (error_text error))
  after_rotation (ok pair) claims times db =
      enter (build_session db claims.tenant_id claims.actor_id) pair
        (auth_cookies pair secure times.at_access_cookie times.at_refresh_cookie)

  abbrev pub after_claims :
      Result (Token × RefreshTokenClaims)
      → RefreshTimes
      → LoginIds
      → Store
      → Directory
      → Result (Entry Token) × Store
  after_claims (err failure) times ids store db = (err failure, store)
  after_claims (ok (token, claims)) times ids store db =
      let (rotated, store') =
        rotate_token_pair jwt settings revocations store token (subject_of claims) times.at_rotate
          times.at_issue ids.access_id ids.refresh_id in
      (after_rotation rotated claims times db, store')

  unfoldable pub refresh :
      Option Token → RefreshTimes → LoginIds → Store → Directory → Result (Entry Token) × Store
  unfolding rotate_token_pair verify_refresh_token build_session cookie_max_age
  refresh cookie times ids store db =
      after_claims (require_refresh_claims store cookie times.at_verify) times ids store db
