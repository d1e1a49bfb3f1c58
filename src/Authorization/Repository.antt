-- ===== src/Authorization/Repository.antt =====
-- `SqlAuthorizationPolicyRepository` of
-- src/aipy/modules/authorization/infrastructure/policy_repository.py, on the rows that the session
-- of the tenant sees. A query is a function of the rows; the order of an unordered one is theirs.
pub mod Rows
mod Tests
use aipy.Prelude.{
  String, Bool, not, Option, none, some, List, [], map, ◌&&◌, ◌∷◌, ◌==◌, if◌then◌else◌, holds, any,
  keep, find, is_empty, string_eq, nat_eq,
}
use aipy.Prelude.Options.{◌>>=◌}
use aipy.Security.{Uuid, TenantContext}
use aipy.Organization.{Tenant, AppUser, TenantMembership, Role, RolePermission}
use aipy.Authorization.Permission.{Permission, make_permission}
use aipy.Authorization.Policy.{
  DataScope, DataScopeGrant, PermissionGrant, AuthorizationPolicy, default_duties,
}
use aipy.Authorization.Catalogue.{resolve_role, permissions_for_role}

-- The rows that a session sees.
pub record Tables : Type 0 where
  pub tenants : List Tenant
  pub users : List AppUser
  pub memberships : List TenantMembership
  pub roles : List Role
  pub role_permissions : List RolePermission

-- `TENANT_WIDE_SCOPE`
abbrev pub tenant_wide_scope : List DataScopeGrant
tenant_wide_scope =
    (record { scope = DataScope.tenant_all; workspace_ids = []; team_ids = []; custom = none }) ∷ []

-- `_active_membership`, which does not ask for the status.
unfoldable pub active_membership : Tables → Uuid → Uuid → Option TenantMembership
active_membership db tenant actor =
    find (λ (m : TenantMembership). m.tenant_id == tenant && m.user_id == actor) db.memberships

-- `_permission_codes`: the joins as tests of a row of role_permission.
abbrev member_with_role : Tables → Uuid → Uuid → Uuid → Bool
member_with_role db tenant membership role =
    any
      (λ (m : TenantMembership).
        m.tenant_id == tenant && (m.id == membership && holds m.role_id role))
      db.memberships

abbrev role_in_tenant : Tables → Uuid → Uuid → Bool
role_in_tenant db tenant role = any (λ (r : Role). r.id == role && r.tenant_id == tenant) db.roles

unfoldable pub permission_codes : Tables → Uuid → Uuid → List String
permission_codes db tenant membership =
    map (λ (p : RolePermission). p.permission_code)
      (keep
        (λ (p : RolePermission).
          role_in_tenant db tenant p.role_id && member_with_role db tenant membership p.role_id)
        db.role_permissions)

-- `_resolve_codes`
unfoldable pub resolve_codes : List String → Option String → List String
resolve_codes codes job_title =
    if is_empty codes then permissions_for_role (some (resolve_role job_title)) else codes

-- `dict.fromkeys(codes)`: each code once, where it comes first.
pub fromkeys : List String → List String
fromkeys [] = []
fromkeys (code ∷ codes) = code ∷ keep (λ other. not (other == code)) (fromkeys codes)

-- The loop of `_grants`; a malformed code is skipped.
pub valid_grants : List String → List PermissionGrant
unfolding make_permission
valid_grants [] = []
valid_grants (code ∷ codes) = elim (make_permission code) [
  | none ↦ valid_grants codes
  | some p ↦ (record { permission = p; data_scopes = tenant_wide_scope }) ∷ valid_grants codes
]

unfoldable pub grants : List String → List PermissionGrant
unfolding fromkeys valid_grants
grants codes = valid_grants (fromkeys codes)

-- `AuthorizationPolicy(…)` of the rows that were found.
abbrev pub policy_of : Tables → Uuid → Tenant → TenantMembership → AppUser → AuthorizationPolicy
policy_of db tenant_id tenant membership user = record {
  tenant_active = tenant.status == "ACTIVE";
  actor_active = membership.status == "ACTIVE" && user.status == "ACTIVE";
  permission_grants =
      grants (resolve_codes (permission_codes db tenant_id membership.id) membership.job_title);
  workflow_state_policies = [];
  separation_of_duties = default_duties;
}

-- `get_policy`
unfoldable pub get_policy : Tables → TenantContext → Option AuthorizationPolicy
unfolding active_membership
get_policy db subject = do
  tenant ← find (λ (t : Tenant). t.id == subject.tenant_id) db.tenants
  membership ← active_membership db subject.tenant_id subject.actor_id
  user ← find (λ (u : AppUser). u.id == subject.actor_id) db.users
  some (policy_of db subject.tenant_id tenant membership user)
