-- ===== src/Authorization/Service.antt =====
-- src/aipy/modules/authorization/service.py, method by method. The policy repository is the
-- protocol of domain/ports.py, and so a parameter.
pub mod Scopes
pub mod Rules
pub mod Decisions
pub mod Isolation
mod Tests
use aipy.Prelude.{
  String, Bool, true, false, not, Option, none, some, List, map, ◌&&◌, ◌==◌, if◌then◌else◌, holds,
  is_none, any, keep, is_empty, contains, string_eq, nat_eq,
}
use aipy.Security.{Uuid, TenantContext}
use aipy.Authorization.Permission.{Permission, make_permission, resource}
use aipy.Authorization.Policy.{
  DataScope, CustomScopeConstraint, DataScopeGrant, PermissionGrant, WorkflowStatePolicy,
  AuthorizationPolicy, ResourceContext, DenialReason, AuthorizationDecision,
}

-- `id in ids`, where `id` may be `None`.
abbrev pub member : Option Uuid → List Uuid → Bool
member none ids = false
member (some id) ids = contains ids id

-- `ids or own`
abbrev pub or_own : List Uuid → List Uuid → List Uuid
or_own ids own = if is_empty ids then own else ids

-- `_scope_matches`; the branch of CUSTOM is `custom_matches`.
abbrev pub custom_matches : ResourceContext → CustomScopeConstraint → Bool
custom_matches r c =
    if not (is_empty c.workspace_ids) && not (member r.workspace_id c.workspace_ids)
    then false
    else if not (is_empty c.team_ids) && not (member r.team_id c.team_ids)
    then false
    else not (not (is_empty c.resource_ids) && not (member r.resource_id c.resource_ids))

abbrev scope_matches_by : DataScope → TenantContext → ResourceContext → DataScopeGrant → Bool
scope_matches_by DataScope.tenant_all s r g = true
scope_matches_by DataScope.workspace s r g =
    member r.workspace_id (or_own g.workspace_ids s.workspace_ids)
scope_matches_by DataScope.team s r g = member r.team_id (or_own g.team_ids s.team_ids)
scope_matches_by DataScope.assigned s r g = holds r.assigned_to s.actor_id
scope_matches_by DataScope.created_by_me s r g = holds r.created_by s.actor_id
scope_matches_by DataScope.custom s r g = elim g.custom [
  | none ↦ false
  | some c ↦ custom_matches r c
]

unfoldable pub scope_matches : TenantContext → ResourceContext → DataScopeGrant → Bool
scope_matches s r g = scope_matches_by g.scope s r g

-- `_data_scope_allowed`
unfoldable pub data_scope_allowed : TenantContext → ResourceContext → List PermissionGrant → Bool
data_scope_allowed s r grants = any (λ g. any (scope_matches s r) g.data_scopes) grants

-- `_workflow_state_allowed`
unfoldable pub workflow_state_allowed : AuthorizationPolicy → Permission → ResourceContext → Bool
workflow_state_allowed policy permission r =
    let rules =
      keep (λ (rule : WorkflowStatePolicy). rule.permission.code == permission.code)
        policy.workflow_state_policies in
    if is_empty rules then is_none r.workflow_state else elim r.workflow_state [
      | none ↦ false
      | some state ↦ any (λ (rule : WorkflowStatePolicy). contains rule.allowed_states state) rules
    ]

-- `_violates_separation_of_duties`
unfoldable pub violates_duties :
    AuthorizationPolicy → Permission → TenantContext → ResourceContext → Bool
violates_duties policy permission s r =
    if contains rules.approval_permissions permission.code
      && (rules.forbid_submitter_approval && holds r.submitted_by s.actor_id)
    then true
    else if contains rules.approval_permissions permission.code
        && (rules.forbid_creator_approval && holds r.created_by s.actor_id)
    then true
    else if contains rules.publishing_permissions permission.code
        && (rules.forbid_editor_publish && holds r.last_edited_by s.actor_id)
    then true
    else if contains rules.publishing_permissions permission.code
        && (rules.forbid_approver_publish && contains r.approved_by_ids s.actor_id)
    then true
    else false
  where
    open policy use {separation_of_duties as rules}

-- `Permission | str`
pub data Action : Type 0 where
  permission : Permission → Action
  text : String → Action

-- `_normalize_permission`
abbrev pub normalize_permission : Action → Option Permission
normalize_permission (Action.permission p) = some p
normalize_permission (text code) = make_permission code

-- `str(action)`, which only an invalid code reaches.
abbrev pub action_text : Action → String
action_text (Action.permission p) = p.code
action_text (text code) = code

abbrev pub deny : String → DenialReason → AuthorizationDecision
deny code reason = record { allowed = false; permission = code; denial_reason = some reason }

abbrev pub allow : String → AuthorizationDecision
allow code = record { allowed = true; permission = code; denial_reason = none }

-- The tests of `authorize` on a policy that was found.
unfoldable pub authorize_by :
    AuthorizationPolicy → TenantContext → Permission → ResourceContext → AuthorizationDecision
authorize_by policy s p r =
    if not policy.tenant_active
    then deny p.code DenialReason.tenant_inactive
    else if not policy.actor_active
    then deny p.code DenialReason.actor_inactive
    else let grants =
        keep (λ (g : PermissionGrant). g.permission.code == p.code) policy.permission_grants in
      if is_empty grants
      then deny p.code DenialReason.permission_missing
      else if not (workflow_state_allowed policy p r)
      then deny p.code DenialReason.workflow_state_denied
      else if violates_duties policy p s r
      then deny p.code DenialReason.separation_of_duties
      else if not (data_scope_allowed s r grants)
      then deny p.code DenialReason.data_scope_mismatch
      else allow p.code

-- The same on what the repository answered.
abbrev pub authorize_with :
    Option AuthorizationPolicy
    → TenantContext
    → Permission
    → ResourceContext
    → AuthorizationDecision
authorize_with none s p r = deny p.code DenialReason.policy_not_found
authorize_with (some policy) s p r = authorize_by policy s p r

module _ (get_policy : TenantContext → Option AuthorizationPolicy) where
  abbrev authorize_permission : TenantContext → Permission → ResourceContext → AuthorizationDecision
  authorize_permission s p r =
      if not (s.tenant_id == r.tenant_id)
      then deny p.code DenialReason.tenant_mismatch
      else if not (resource p == r.resource_type)
      then deny p.code DenialReason.resource_type_mismatch
      else authorize_with (get_policy s) s p r

  unfoldable pub authorize : TenantContext → Action → ResourceContext → AuthorizationDecision
  authorize s action r = elim (normalize_permission action) [
    | none ↦ deny (action_text action) DenialReason.invalid_permission
    | some p ↦ authorize_permission s p r
  ]

  -- The codes of the allowed decisions; the set is a list of its members.
  unfoldable pub allowed_actions : TenantContext → List Action → ResourceContext → List String
  unfolding authorize
  allowed_actions s actions r =
      map (λ (d : AuthorizationDecision). d.permission)
        (keep (λ (d : AuthorizationDecision). d.allowed) (map (λ a. authorize s a r) actions))
