-- ===== src/Authorization/Policy.antt =====
-- The policy models of src/aipy/modules/authorization/domain/models.py. A validator that raises
-- is a test of the fields, and the constructor that runs it gives `none` where the test fails.
-- A frozenset is a list of which only the members matter.
use aipy.Prelude.{
  String, Bool, true, false, not, Option, none, some, List, [], ◌&&◌, ◌∷◌, if◌then◌else◌, is_none,
  is_empty,
}
use aipy.Security.{Uuid}
use aipy.Authorization.Permission.{Permission}

pub data DataScope : Type 0 where
  tenant_all workspace team assigned created_by_me custom : DataScope

pub record CustomScopeConstraint : Type 0 where
  pub workspace_ids : List Uuid
  pub team_ids : List Uuid
  pub resource_ids : List Uuid

-- `require_at_least_one_dimension`
unfoldable pub make_custom_scope : CustomScopeConstraint → Option CustomScopeConstraint
make_custom_scope c =
    if is_empty c.workspace_ids && (is_empty c.team_ids && is_empty c.resource_ids)
    then none
    else some c

pub record DataScopeGrant : Type 0 where
  pub scope : DataScope
  pub workspace_ids : List Uuid
  pub team_ids : List Uuid
  pub custom : Option CustomScopeConstraint

abbrev pub is_custom : DataScope → Bool
is_custom DataScope.custom = true
is_custom _ = false

-- `validate_scope_configuration`
unfoldable pub make_scope_grant : DataScopeGrant → Option DataScopeGrant
make_scope_grant g =
    if is_custom g.scope && is_none g.custom
    then none
    else if not (is_custom g.scope) && not (is_none g.custom)
    then none
    else some g

pub record PermissionGrant : Type 0 where
  pub permission : Permission
  pub data_scopes : List DataScopeGrant

pub record WorkflowStatePolicy : Type 0 where
  pub permission : Permission
  pub allowed_states : List String

pub record SeparationOfDutiesPolicy : Type 0 where
  pub approval_permissions : List String
  pub publishing_permissions : List String
  pub forbid_submitter_approval : Bool
  pub forbid_creator_approval : Bool
  pub forbid_editor_publish : Bool
  pub forbid_approver_publish : Bool

-- The defaults of the fields.
abbrev pub default_duties : SeparationOfDutiesPolicy
default_duties = record {
  approval_permissions = "review:approve" ∷ [];
  publishing_permissions = "publication:publish" ∷ [];
  forbid_submitter_approval = true;
  forbid_creator_approval = true;
  forbid_editor_publish = true;
  forbid_approver_publish = false;
}

pub record AuthorizationPolicy : Type 0 where
  pub tenant_active : Bool
  pub actor_active : Bool
  pub permission_grants : List PermissionGrant
  pub workflow_state_policies : List WorkflowStatePolicy
  pub separation_of_duties : SeparationOfDutiesPolicy

pub record ResourceContext : Type 0 where
  pub tenant_id : Uuid
  pub resource_type : String
  pub resource_id : Option Uuid
  pub workspace_id : Option Uuid
  pub team_id : Option Uuid
  pub assigned_to : Option Uuid
  pub created_by : Option Uuid
  pub submitted_by : Option Uuid
  pub last_edited_by : Option Uuid
  pub approved_by_ids : List Uuid
  pub workflow_state : Option String

-- `ResourceContext(tenant_id=…, resource_type=…)`: the other fields have their defaults.
abbrev pub resource_context : Uuid → String → ResourceContext
resource_context tenant type = record {
  tenant_id = tenant;
  resource_type = type;
  resource_id = none;
  workspace_id = none;
  team_id = none;
  assigned_to = none;
  created_by = none;
  submitted_by = none;
  last_edited_by = none;
  approved_by_ids = [];
  workflow_state = none;
}

pub data DenialReason : Type 0 where
  invalid_permission tenant_mismatch resource_type_mismatch policy_not_found tenant_inactive
        actor_inactive permission_missing data_scope_mismatch workflow_state_denied
        separation_of_duties :
      DenialReason

pub record AuthorizationDecision : Type 0 where
  pub allowed : Bool
  pub permission : String
  pub denial_reason : Option DenialReason

-- `validate_decision`: a decision gives a reason exactly if it denies.
unfoldable pub validate_decision : AuthorizationDecision → Bool
validate_decision d =
    if d.allowed && not (is_none d.denial_reason)
    then false
    else if not d.allowed && is_none d.denial_reason
    then false
    else true
