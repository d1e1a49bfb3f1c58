-- ===== src/Authorization/Service/Tests.antt =====
-- Requests on src/aipy/modules/authorization/service.py: a reviewer with two grants and one rule.
use aipy.Prelude.{
  refl, true, false, none, some, List, [], arith, ◌≡◌, ◌≢◌, ◌∷◌, ◌==◌, if◌then◌else◌, Decides,
  string_eq, nat_eq,
}
use aipy.Security.{TenantContext, ActorType}
use aipy.Authorization.Permission.{Permission}
use aipy.Authorization.Policy.{
  DataScope, DataScopeGrant, PermissionGrant, AuthorizationPolicy, ResourceContext, default_duties,
  resource_context,
}
use aipy.Authorization.Service.{
  Action, text, permission, authorize, authorize_by, allowed_actions, scope_matches,
  workflow_state_allowed, violates_duties,
}
use aipy.Authorization.Service.Rules.{Conflict, violates_duties_iff}
use aipy.Authorization.Service.Decisions.{Allowed, authorize_iff}
use aipy.Authorization.Service.Isolation.{Repository, authorize_isolated}

abbrev reviewer : TenantContext
reviewer = record {
  tenant_id = 1;
  actor = record {
    actor_id = 7;
    actor_type = ActorType.user;
    role_ids = [];
    team_ids = 4 ∷ [];
    workspace_ids = 3 ∷ [];
    session_id = none;
  };
  request_id = "r-1";
}

abbrev approve : Permission
approve = record { code = "review:approve" }

abbrev own_teams : DataScopeGrant
own_teams = record { scope = DataScope.team; workspace_ids = []; team_ids = []; custom = none }

abbrev own_assignments : DataScopeGrant
own_assignments = record own_teams { scope = DataScope.assigned }

abbrev approve_grant : PermissionGrant
approve_grant = record { permission = approve; data_scopes = own_assignments ∷ own_teams ∷ [] }

abbrev view_grant : PermissionGrant
view_grant = record { permission = record { code = "review:view" }; data_scopes = own_teams ∷ [] }

abbrev policy : AuthorizationPolicy
policy = record {
  tenant_active = true;
  actor_active = true;
  permission_grants = approve_grant ∷ [];
  workflow_state_policies =
      (record { permission = approve; allowed_states = "IN_REVIEW" ∷ [] }) ∷ [];
  separation_of_duties = default_duties;
}

abbrev repository : Repository
repository s = if s.tenant_id == 1 then some policy else none

abbrev empty_repository : Repository
empty_repository s = none

-- A task of the reviewer's team, in review.
abbrev task : ResourceContext
task = record (resource_context 1 "review") {
  team_id = some 4;
  created_by = some 9;
  workflow_state = some "IN_REVIEW";
}

abbrev foreign_task : ResourceContext
foreign_task = record task { tenant_id = 2 }

approve_allowed : (authorize_by policy reviewer approve task).allowed ≡ true
unfolding authorize_by workflow_state_allowed violates_duties
    aipy.Authorization.Service.data_scope_allowed scope_matches
approve_allowed = refl

approve_own_test :
    (authorize repository reviewer
      (text "review:approve")
      (record task { created_by = some 7 })).allowed
    ≡ false
unfolding authorize aipy.Authorization.Permission.make_permission
    aipy.Authorization.Permission.resource authorize_by workflow_state_allowed violates_duties
approve_own_test = refl

other_tenant : reviewer.tenant_id ≢ foreign_task.tenant_id
other_tenant e = omega (arith, e)

violates_duties_iff_example :
    Decides
      (violates_duties policy approve reviewer task)
      (Conflict default_duties "review:approve" 7 task)
violates_duties_iff_example = violates_duties_iff policy approve reviewer task

authorize_iff_example :
    Decides
      (authorize repository reviewer (text "review:approve") task).allowed
      (Allowed repository reviewer (text "review:approve") task)
authorize_iff_example = authorize_iff repository reviewer (text "review:approve") task

authorize_isolated_example :
    ((authorize repository reviewer (text "review:approve") foreign_task).allowed ≡ false)
    × (authorize repository reviewer (text "review:approve") foreign_task
        ≡ authorize empty_repository reviewer (text "review:approve") foreign_task)
authorize_isolated_example =
    authorize_isolated repository empty_repository reviewer (text "review:approve") foreign_task
      other_tenant

abbrev candidates : List Action
candidates = text "review:approve" ∷ text "review:reject" ∷ []
