-- ===== src/Authorization/Service/Decisions.antt =====
-- `authorize` and `allowed_actions` of src/aipy/modules/authorization/service.py against the
-- statement of who may do what.
use aipy.Prelude.{
  String, inl, inr, Bool, true, not, Option, none, some, List, [], arith, eq_iff, ◌≡◌, ◌&&◌, ◌∷◌,
  ◌==◌, if◌then◌else◌, nat_beq_iff, Option-cases, Decides, and_Decides, not_Decides, id_Decides,
  any, keep, is_empty, any-keep, Any, any_iff, string_eq, nat_eq,
}
use aipy.Security.{TenantContext}
use aipy.Authorization.Permission.{Permission, resource}
use aipy.Authorization.Policy.{
  PermissionGrant, AuthorizationPolicy, ResourceContext, DenialReason, validate_decision,
}
use aipy.Authorization.Service.{
  scope_matches, data_scope_allowed, workflow_state_allowed, violates_duties, authorize_by, deny,
  authorize, Action, normalize_permission, authorize_permission,
}
use aipy.Authorization.Service.Scopes.{InScope, scope_matches_iff}
use aipy.Authorization.Service.Rules.{
  StateAllowed, Conflict, workflow_state_allowed_iff, violates_duties_iff,
}

-- A grant for the code has a scope that covers the resource.
abbrev pub Grants : TenantContext → String → ResourceContext → PermissionGrant → Type 0
Grants s code r g = (g.permission.code ≡ code) × Any (InScope s r) g.data_scopes

-- What a policy permits.
pub record Permits (policy : AuthorizationPolicy) (s : TenantContext) (code : String)
    (r : ResourceContext) : Type 0 where
  pub tenant_active : policy.tenant_active ≡ true
  pub actor_active : policy.actor_active ≡ true
  pub state_allowed : StateAllowed policy.workflow_state_policies code r
  pub no_conflict : ¬ Conflict policy.separation_of_duties code s.actor_id r
  pub granted : Any (Grants s code r) policy.permission_grants

module _ (policy : AuthorizationPolicy) (s : TenantContext) (p : Permission)
    (r : ResourceContext) where
  abbrev grants_for : PermissionGrant → Bool
  grants_for g = g.permission.code == p.code

  abbrev covers : PermissionGrant → Bool
  covers g = any (scope_matches s r) g.data_scopes

  granted_iff :
      Decides
        (any (λ g. grants_for g && covers g) policy.permission_grants)
        (Any (Grants s p.code r) policy.permission_grants)
  granted_iff = any_iff _ policy.permission_grants (λ g.
      and_Decides _ _ (eq_iff g.permission.code p.code)
        (any_iff _ g.data_scopes (λ sg. scope_matches_iff s r sg)))

  authorize_by-allowed : (authorize_by policy s p r).allowed ≡ (
      policy.tenant_active
      && (policy.actor_active
          && (workflow_state_allowed policy p r
              && (not (violates_duties policy p s r)
                  && any (λ g. grants_for g && covers g) policy.permission_grants))))
  unfolding authorize_by data_scope_allowed
  authorize_by-allowed =
      rw (← any-keep grants_for covers policy.permission_grants)
        (ladder (keep grants_for policy.permission_grants))
    where
      ladder :
          (grants : List PermissionGrant)
          → (if not policy.tenant_active
              then deny p.code DenialReason.tenant_inactive
              else if not policy.actor_active
              then deny p.code DenialReason.actor_inactive
              else if is_empty grants
              then deny p.code DenialReason.permission_missing
              else if not (workflow_state_allowed policy p r)
              then deny p.code DenialReason.workflow_state_denied
              else if violates_duties policy p s r
              then deny p.code DenialReason.separation_of_duties
              else if not (any covers grants)
              then deny p.code DenialReason.data_scope_mismatch
              else record { allowed = true; permission = p.code; denial_reason = none }).allowed
            ≡ (policy.tenant_active
                && (policy.actor_active
                    && (workflow_state_allowed policy p r
                        && (not (violates_duties policy p s r) && any covers grants))))
      ladder [] = ground arith
      ladder (g ∷ grants) = ground arith

  pub authorize_by_iff : Decides (authorize_by policy s p r).allowed (Permits policy s p.code r)
  authorize_by_iff =
      let parts = and_Decides policy.tenant_active _ (id_Decides policy.tenant_active) (
        and_Decides policy.actor_active _ (id_Decides policy.actor_active) (
          and_Decides _ _ (workflow_state_allowed_iff policy p r)
            (and_Decides _ _ (not_Decides _ (violates_duties_iff policy p s r)) granted_iff))) in
      rw authorize_by-allowed (
        λ h.
            let (t, (a, (w, (d, g)))) = parts.0 h in
            record {
              tenant_active = t;
              actor_active = a;
              state_allowed = w;
              no_conflict = d;
              granted = g;
            },
        λ h.
            parts.1
              (h.tenant_active, (h.actor_active, (h.state_allowed, (h.no_conflict, h.granted)))),
      )

  pub authorize_by-valid : validate_decision (authorize_by policy s p r) ≡ true
  unfolding authorize_by validate_decision
  authorize_by-valid = ground arith

-- What makes a request allowed: the action is a permission code, the resource is of the caller's
-- tenant and of the code's type, and a policy of the caller permits it.
pub record Allowed (get_policy : TenantContext → Option AuthorizationPolicy) (s : TenantContext)
    (action : Action) (r : ResourceContext) : Type 0 where
  pub wanted : Permission
  pub policy : AuthorizationPolicy
  pub normalized : normalize_permission action ≡ some wanted
  pub same_tenant : s.tenant_id ≡ r.tenant_id
  pub same_type : resource wanted ≡ r.resource_type
  pub found : get_policy s ≡ some policy
  pub permits : Permits policy s wanted.code r

module _ (get_policy : TenantContext → Option AuthorizationPolicy) where
  open_cases :
      (s : TenantContext) (p : Permission) (r : ResourceContext)
      → (authorize_permission get_policy s p r).allowed ≡ true
      → (policy : AuthorizationPolicy) × (get_policy s ≡ some policy)
        × ((s.tenant_id == r.tenant_id) ≡ true)
        × ((resource p == r.resource_type) ≡ true)
        × ((authorize_by policy s p r).allowed ≡ true)
  open_cases s p r h = elim (Option-cases (get_policy s)) [
    | inl missing ↦ absurd (refused (rw missing at h))
    | inr (policy, found) ↦
        let (tenant, type, rest) = tests policy (rw found at h) in
        (policy, found, tenant, type, rest)
  ]
    where
      refused :
          (if not (s.tenant_id == r.tenant_id)
              then deny p.code DenialReason.tenant_mismatch
              else if not (resource p == r.resource_type)
              then deny p.code DenialReason.resource_type_mismatch
              else deny p.code DenialReason.policy_not_found).allowed
            ≡ true
          → ⊥
      refused k = ground arith

      tests :
          (policy : AuthorizationPolicy)
          → (if not (s.tenant_id == r.tenant_id)
              then deny p.code DenialReason.tenant_mismatch
              else if not (resource p == r.resource_type)
              then deny p.code DenialReason.resource_type_mismatch
              else authorize_by policy s p r).allowed
            ≡ true
          → ((s.tenant_id == r.tenant_id) ≡ true)
            × ((resource p == r.resource_type) ≡ true)
            × ((authorize_by policy s p r).allowed ≡ true)
      tests policy k = ground arith

  authorize_sound :
      (s : TenantContext) (action : Action) (r : ResourceContext)
      → (authorize get_policy s action r).allowed ≡ true
      → Allowed get_policy s action r
  unfolding authorize
  authorize_sound s action r h = elim (Option-cases (normalize_permission action)) [
    | inl e ↦ cc (rw (e, authorize) at h)
    | inr (p, e) ↦
        let (policy, found, tenant, type, rest) = open_cases s p r (rw (e, authorize) at h) in
        record {
          wanted = p;
          policy = policy;
          normalized = e;
          same_tenant = (nat_beq_iff s.tenant_id r.tenant_id).0 tenant;
          same_type = (eq_iff (resource p) r.resource_type).0 type;
          found = found;
          permits = (authorize_by_iff policy s p r).0 rest;
        }
  ]

  authorize_complete :
      (s : TenantContext) (action : Action) (r : ResourceContext)
      → Allowed get_policy s action r
      → (authorize get_policy s action r).allowed ≡ true
  unfolding authorize
  authorize_complete s action r a =
      let tenant = (nat_beq_iff s.tenant_id r.tenant_id).1 a.same_tenant in
      let type = (eq_iff (resource a.wanted) r.resource_type).1 a.same_type in
      rw (a.normalized, authorize)
        (rw (tenant, type, a.found) ((authorize_by_iff a.policy s a.wanted r).1 a.permits))

  -- A request is allowed exactly if its action is a well-formed permission code, tenant and
  -- resource type agree, a policy is found, and that policy has tenant and actor active, the
  -- workflow state allowed, no conflict of duties, and a grant of the code with a scope that covers
  -- the resource.
  pub authorize_iff :
      (s : TenantContext) (action : Action) (r : ResourceContext)
      → Decides (authorize get_policy s action r).allowed (Allowed get_policy s action r)
  authorize_iff s action r = (authorize_sound s action r, authorize_complete s action r)

  -- Every decision passes the validator of its class: it gives a reason exactly if it denies.
  pub authorize-valid :
      (s : TenantContext) (action : Action) (r : ResourceContext)
      → validate_decision (authorize get_policy s action r) ≡ true
  unfolding authorize validate_decision
  authorize-valid s action r = elim (Option-cases (normalize_permission action)) [
    | inl e ↦ rw (e, authorize)
    | inr (p, e) ↦ elim (Option-cases (get_policy s)) [
      | inl missing ↦ rw (e, authorize) (rw missing (ground arith))
      | inr (policy, found) ↦
          rw (e, authorize) (rw found (ground (arith, authorize_by-valid policy s p r)))
    ]
  ]
