-- ===== src/Api/Sessions/Tests.antt =====
-- A member logs in, refreshes and logs out; a guesser is locked out.
use aipy.Prelude.{
  String, refl, true, false, none, some, [], arith, ◌+◌, ◌≤◌, ◌<◌, ◌≡◌, ◌≢◌, ◌∷◌, ◌==◌, string_eq,
  nat_eq,
}
use aipy.Security.{ActorType}
use aipy.Organization.{Tenant, AppUser, TenantMembership, Workspace}
use aipy.Authorization.Catalogue.{permissions_for_role}
use aipy.Identity.Claims.{Time, TokenSubject, TokenPair}
use aipy.Identity.Lockout.{Lockout, new_lockout, reset}
use aipy.Identity.Revocations.InMemory.{InMemoryRevocations, no_revocations, in_memory}
use aipy.Identity.Fixtures.{ToyToken, toy, settings}
use aipy.Identity.Tokens.{
  new_refresh_claims, issue_token_pair, decode_refresh, logout, tenant_context_from_access_token,
}
use aipy.Identity.Tokens.Issued.{context_for}
use aipy.Api.Errors.{Failure, ok, err}
use aipy.Api.Sessions.Accounts.{Directory, Texts, authenticate, TenantSession}
use aipy.Api.Sessions.{auth_cookies, Entry, LoginTimes, LoginIds, RefreshTimes, login, refresh}
use aipy.Api.Sessions.Entered.{Admitted, login_identifies}
use aipy.Api.Sessions.LockedOut.{
  in_memory_lockout, Attempt, try_login, after_attempts, login_locked_out,
}
use aipy.Api.Sessions.Refreshed.{refreshes_once, no_refresh_after_logout}

abbrev tenant : Tenant
tenant = record {
  id = 1;
  created_by = none;
  updated_by = none;
  row_version = 0;
  code = "acme";
  name = "Acme";
  status = "ACTIVE";
  timezone = "Asia/Shanghai";
  locale = "zh-CN";
  data_region = "cn";
  plan_id = 2;
  settings_version = 1;
}

abbrev user : AppUser
user = record {
  id = 7;
  created_by = none;
  updated_by = none;
  row_version = 4;
  email = "li@acme.cn";
  phone = none;
  password_hash = "secret";
  display_name = "Li";
  status = "ACTIVE";
  mfa_enabled = false;
  last_login_at = none;
}

abbrev membership : TenantMembership
membership = record {
  id = 70;
  tenant_id = 1;
  created_by = none;
  updated_by = none;
  row_version = 0;
  user_id = 7;
  role_id = none;
  status = "ACTIVE";
  member_no = none;
  job_title = some "reviewer";
  joined_at = none;
}

abbrev workspace : Workspace
workspace = record {
  id = 90;
  tenant_id = 1;
  created_at = 5;
  created_by = none;
  updated_by = none;
  row_version = 0;
  code = "main";
  name = "Main";
  status = "ACTIVE";
  default_brand_id = none;
  created_by_membership_id = 70;
}

abbrev directory : Directory
directory = record {
  tables = record {
    tenants = tenant ∷ [];
    users = user ∷ [];
    memberships = membership ∷ [];
    roles = [];
    role_permissions = [];
  };
  workspaces = workspace ∷ [];
}

abbrev seen : Directory
seen = record directory {
  tables = record directory.tables {
    users = (record user { last_login_at = some 1000000000; row_version = 5 }) ∷ [];
  };
}

-- A hash that is the password, and addresses in small letters.
abbrev texts : Texts
texts = record { verify = λ p h. p == h; citext_equal = λ a b. a == b; lower = λ s. s }

abbrev times : LoginTimes
times = record {
  at_lock = 1000000000;
  at_login = 1000000000;
  at_failure = 1000000000;
  at_deadline = 1000000000;
  at_issue = 1000000000;
  at_access_cookie = 1000000000;
  at_refresh_cookie = 1000000000;
}

abbrev ids : LoginIds
ids = record { session_id = 40; access_id = 501; refresh_id = 502 }

abbrev who : TokenSubject
who = record {
  tenant_id = 1;
  actor_id = 7;
  actor_type = ActorType.user;
  session_id = 40;
  role_ids = [];
  team_ids = [];
  workspace_ids = [];
}

abbrev session : TenantSession
session = record {
  tenant_id = 1;
  tenant_name = "Acme";
  tenant_slug = "acme";
  tenant_timezone = "Asia/Shanghai";
  tenant_status = "ACTIVE";
  workspace_id = 90;
  workspace_name = "Main";
  user_id = 7;
  user_display_name = "Li";
  user_email = "li@acme.cn";
  user_role_label = "reviewer";
  user_data_scopes = "TENANT_ALL" ∷ [];
  permissions = permissions_for_role (some "reviewer");
}

abbrev pair : TokenPair ToyToken
pair = issue_token_pair toy settings in_memory who 1000000000 501 502

abbrev entry : Entry ToyToken
entry = record {
  session = session;
  pair = pair;
  cookies = auth_cookies pair true 1000000000 1000000000;
}

abbrev after_login : Lockout
after_login = reset "li@acme.cn" new_lockout

logged_in :
    login
      (in_memory_lockout 3 600000000)
      texts
      toy
      settings
      in_memory
      true
      "li@acme.cn"
      "secret"
      times
      ids
      new_lockout
      directory
    ≡ (ok entry, (after_login, seen))
unfolding login in_memory_lockout aipy.Prelude.Sorting.order_by
    aipy.Authorization.Catalogue.role_code
logged_in = refl

issued_before : 1000000000 ≤ 1200000000
issued_before = omega arith

still_alive : 1200000000 < 1930000000
still_alive = omega arith

not_revoked : in_memory.is_token_revoked no_revocations 501 ≡ false
unfolding in_memory
not_revoked = refl

not_ended : in_memory.is_session_revoked no_revocations 40 ≡ false
unfolding in_memory
not_ended = refl

login_identifies_example :
    (subject : TokenSubject) × Admitted texts directory "li@acme.cn" "secret" subject
    × (tenant_context_from_access_token toy settings in_memory no_revocations pair.access_token
          "r-9" 1200000000
        ≡ ok (context_for subject "r-9"))
login_identifies_example =
    login_identifies (in_memory_lockout 3 600000000) texts toy settings in_memory true "li@acme.cn"
      "secret" times ids new_lockout after_login directory seen entry no_revocations 1200000000
      "r-9" logged_in issued_before still_alive not_revoked not_ended

abbrev guess : String → Time → Attempt
guess password at = record {
  password = password;
  times = record times { at_lock = at; at_login = at; at_failure = at; at_deadline = at };
  ids = ids;
}

open_key : new_lockout.locked_until "li@acme.cn" ≡ none
open_key = refl

wrong_a : authenticate texts directory "li@acme.cn" "a" 2000000000 40 ≡ none
unfolding authenticate
wrong_a = refl

wrong_b : authenticate texts directory "li@acme.cn" "b" 2000000100 40 ≡ none
unfolding authenticate
wrong_b = refl

wrong_c : authenticate texts directory "li@acme.cn" "c" 2000000200 40 ≡ none
unfolding authenticate
wrong_c = refl

soon : 2000000300 < 2000000200 + 600000000
soon = omega arith

still_soon : 2000000250 < 2000000200 + 600000000
still_soon = omega arith

login_locked_out_example :
    (try_login 3 600000000 texts toy settings in_memory true "li@acme.cn"
      (guess "secret" 2000000300)
      (after_attempts 3 600000000 texts toy settings in_memory true "li@acme.cn"
        (guess "secret" 2000000250 ∷ [])
        (try_login 3 600000000 texts toy settings in_memory true "li@acme.cn"
          (guess "c" 2000000200)
          (after_attempts 3 600000000 texts toy settings in_memory true "li@acme.cn"
            (guess "a" 2000000000 ∷ guess "b" 2000000100 ∷ [])
            (new_lockout, directory))).1)).0
    ≡ err (Failure.http 429 "too many failed login attempts")
login_locked_out_example =
    login_locked_out 3 600000000 texts toy settings in_memory true "li@acme.cn"
      (guess "a" 2000000000 ∷ guess "b" 2000000100 ∷ []) (guess "secret" 2000000250 ∷ [])
      (guess "c" 2000000200) (guess "secret" 2000000300) new_lockout directory refl refl
      (wrong_a, (wrong_b, tt)) wrong_c refl (still_soon, tt) soon

abbrev refresh_times : RefreshTimes
refresh_times = record {
  at_verify = 1200000000;
  at_rotate = 1200000000;
  at_issue = 1300000000;
  at_access_cookie = 1300000000;
  at_refresh_cookie = 1300000000;
}

abbrev next_ids : LoginIds
next_ids = record { session_id = 40; access_id = 503; refresh_id = 504 }

abbrev next_pair : TokenPair ToyToken
next_pair = issue_token_pair toy settings in_memory who 1300000000 503 504

abbrev next_entry : Entry ToyToken
next_entry = record {
  session = session;
  pair = next_pair;
  cookies = auth_cookies next_pair true 1300000000 1300000000;
}

abbrev used : InMemoryRevocations
used = record { tokens = 502 ∷ []; sessions = [] }

refreshed :
    refresh toy settings in_memory true
      (some pair.refresh_token)
      refresh_times
      next_ids
      no_revocations
      seen
    ≡ (ok next_entry, used)
unfolding refresh in_memory aipy.Identity.Revocations.InMemory.consume_refresh_token
    aipy.Prelude.Sorting.order_by aipy.Authorization.Catalogue.role_code
refreshed = refl

refreshes_once_example :
    refresh toy settings in_memory true (some pair.refresh_token) refresh_times next_ids used seen
    ≢ (ok next_entry, used)
refreshes_once_example =
    refreshes_once toy settings in_memory true (some pair.refresh_token) refresh_times refresh_times
      next_ids next_ids no_revocations used used seen seen next_entry next_entry refreshed

decoded :
    decode_refresh toy settings in_memory pair.refresh_token 1200000000
    ≡ ok (new_refresh_claims toy settings in_memory who 1000000000 502)
unfolding decode_refresh
decoded = refl

no_refresh_after_logout_example :
    refresh toy settings in_memory true
      (some pair.refresh_token)
      refresh_times
      next_ids
      (logout toy settings in_memory no_revocations none
        (some pair.refresh_token)
        1100000000
        1200000000)
      seen
    ≢ (ok next_entry, used)
no_refresh_after_logout_example =
    no_refresh_after_logout toy settings in_memory true none pair.refresh_token 1100000000
      1200000000 (new_refresh_claims toy settings in_memory who 1000000000 502) refresh_times
      next_ids no_revocations used seen next_entry decoded
