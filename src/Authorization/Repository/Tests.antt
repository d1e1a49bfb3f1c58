-- ===== src/Authorization/Repository/Tests.antt =====
-- Policies from rows: a reviewer by role, and a member by job title.
use aipy.Prelude.{
  String, refl, true, false, none, some, List, [], ◌≡◌, ◌∷◌, In, contains_iff, string_eq, nat_eq,
}
use aipy.Security.{TenantContext, ActorType, Uuid}
use aipy.Organization.{Tenant, AppUser, TenantMembership, Role, RolePermission}
use aipy.Authorization.Permission.{Permission, match_permission}
use aipy.Authorization.Policy.{resource_context}
use aipy.Authorization.Service.{Action, text, authorize, normalize_permission}
use aipy.Authorization.Catalogue.{viewer_permissions, role_code}
use aipy.Authorization.Repository.{Tables, get_policy, grants}
use aipy.Authorization.Repository.Rows.{Backed, allowed-Backed}

abbrev acme : Tenant
acme = record {
  id = 1;
  created_by = none;
  updated_by = none;
  row_version = 0;
  code = "acme";
  name = "Acme";
  status = "ACTIVE";
  timezone = "Asia/Shanghai";
  locale = "zh-CN";
  data_region = "CN";
  plan_id = 2;
  settings_version = 0;
}

abbrev li : AppUser
li = record {
  id = 7;
  created_by = none;
  updated_by = none;
  row_version = 0;
  email = "li@acme.cn";
  phone = none;
  password_hash = "";
  display_name = "Li";
  status = "ACTIVE";
  mfa_enabled = false;
  last_login_at = none;
}

abbrev li_at_acme : TenantMembership
li_at_acme = record {
  id = 70;
  tenant_id = 1;
  created_by = none;
  updated_by = none;
  row_version = 0;
  user_id = 7;
  role_id = some 5;
  status = "ACTIVE";
  member_no = none;
  job_title = none;
  joined_at = none;
}

abbrev reviewers : Role
reviewers = record {
  id = 5;
  tenant_id = 1;
  created_by = none;
  updated_by = none;
  row_version = 0;
  code = "reviewer";
  name = "审核员";
  description = none;
  is_builtin = true;
  is_default = false;
}

abbrev permits_code : Uuid → String → RolePermission
permits_code role code = record {
  id = 1;
  role_id = role;
  permission_code = code;
  data_scope = some "TENANT_ALL";
}

abbrev rows : Tables
rows = record {
  tenants = acme ∷ [];
  users = li ∷ [];
  memberships = li_at_acme ∷ [];
  roles = reviewers ∷ [];
  role_permissions = permits_code 5 "review:claim" ∷ permits_code 6 "review:approve" ∷ [];
}

abbrev caller : TenantContext
caller = record {
  tenant_id = 1;
  actor = record {
    actor_id = 7;
    actor_type = ActorType.user;
    role_ids = [];
    team_ids = [];
    workspace_ids = [];
    session_id = none;
  };
  request_id = "r-1";
}

claim_allowed :
    (authorize (get_policy rows) caller (text "review:claim") (resource_context 1 "review")).allowed
    ≡ true
unfolding authorize aipy.Authorization.Permission.make_permission
    aipy.Authorization.Permission.resource get_policy aipy.Authorization.Service.authorize_by grants
    aipy.Authorization.Repository.resolve_codes aipy.Authorization.Repository.permission_codes
    aipy.Authorization.Service.workflow_state_allowed aipy.Authorization.Service.violates_duties
    aipy.Authorization.Service.data_scope_allowed aipy.Authorization.Service.scope_matches
claim_allowed = refl

approve_denied_test :
    (authorize
      (get_policy rows)
      caller
      (text "review:approve")
      (resource_context 1 "review")).allowed
    ≡ false
unfolding authorize aipy.Authorization.Permission.make_permission
    aipy.Authorization.Permission.resource get_policy aipy.Authorization.Service.authorize_by grants
    aipy.Authorization.Repository.resolve_codes aipy.Authorization.Repository.permission_codes
approve_denied_test = refl

alias_test : role_code (some " 审核员 ") ≡ "reviewer"
unfolding role_code
alias_test = refl

viewing : In "review:view" viewer_permissions
viewing = (contains_iff viewer_permissions "review:view").0 refl

allowed-Backed_example :
    (p : Permission) × (normalize_permission (text "review:claim") ≡ some p)
    × Backed rows caller p.code
allowed-Backed_example =
    allowed-Backed rows caller (text "review:claim") (resource_context 1 "review") claim_allowed

abbrev listed : List String
listed = "review:claim" ∷ "Review" ∷ []

abbrev claim : String
claim = "review:claim"
