-- ===== src/Authorization/Service/Isolation.antt =====
-- Tenant isolation, monotony in the grants, and the batch check of actions.
use aipy.Prelude.{
  String, inl, inr, true, false, Option, List, [], map, arith, ◌≡◌, ◌≢◌, ◌↔◌, ◌∷◌, ◌++◌,
  Option-cases, Any, Any-append_left, In, In-map-keep,
}
use aipy.Security.{TenantContext}
use aipy.Authorization.Permission.{Permission}
use aipy.Authorization.Policy.{
  PermissionGrant, AuthorizationPolicy, ResourceContext, AuthorizationDecision,
}
use aipy.Authorization.Service.{
  Action, normalize_permission, authorize_by, authorize, allowed_actions,
}
use aipy.Authorization.Service.Decisions.{authorize_by_iff}

abbrev pub Repository : Type 0
Repository = TenantContext → Option AuthorizationPolicy

-- A request on another tenant's resource is denied, and the decision is the same whatever the
-- policy repository holds.
pub authorize_isolated :
    (repository other : Repository) (s : TenantContext) (action : Action) (r : ResourceContext)
    → s.tenant_id ≢ r.tenant_id
    → ((authorize repository s action r).allowed ≡ false)
      × (authorize repository s action r ≡ authorize other s action r)
unfolding authorize
authorize_isolated repository other s action r foreign =
    elim (Option-cases (normalize_permission action)) [
      | inl e ↦ (rw (e, authorize), rw (e, authorize))
      | inr (p, e) ↦ (rw (e, authorize) (ground arith), rw (e, authorize) (ground arith))
    ]

abbrev pub with_grants : AuthorizationPolicy → List PermissionGrant → AuthorizationPolicy
with_grants policy extra = record policy { permission_grants = policy.permission_grants ++ extra }

-- What a policy allows it still allows with more grants.
pub authorize_by-monotone :
    (policy : AuthorizationPolicy) (extra : List PermissionGrant) (s : TenantContext)
    (p : Permission) (r : ResourceContext)
    → (authorize_by policy s p r).allowed ≡ true
    → (authorize_by (with_grants policy extra) s p r).allowed ≡ true
authorize_by-monotone policy extra s p r h =
    let old = (authorize_by_iff policy s p r).0 h in
    (authorize_by_iff (with_grants policy extra) s p r).1 (record {
      tenant_active = old.tenant_active;
      actor_active = old.actor_active;
      state_allowed = old.state_allowed;
      no_conflict = old.no_conflict;
      granted = Any-append_left _ policy.permission_grants extra old.granted;
    })

Any-map_iff :
    {A B : Type 0} (f : A → B) (P : B → Type 0) (xs : List A)
    → Any P (map f xs) ↔ Any (λ x. P (f x)) xs
Any-map_iff f P [] = (λ h. h, λ h. h)
Any-map_iff f P (x ∷ xs) = (
  λ h. elim h [ inl p ↦ inl p | inr q ↦ inr ((Any-map_iff f P xs).0 q) ],
  λ h. elim h [ inl p ↦ inl p | inr q ↦ inr ((Any-map_iff f P xs).1 q) ],
)

-- The batch answers exactly the codes of the candidates that are allowed one by one.
pub allowed_actions_iff :
    (repository : Repository) (s : TenantContext) (actions : List Action) (r : ResourceContext)
    (code : String)
    → In code (allowed_actions repository s actions r)
      ↔ Any
          (λ a.
            ((authorize repository s a r).allowed ≡ true)
            × (code ≡ (authorize repository s a r).permission))
          actions
unfolding allowed_actions
allowed_actions_iff repository s actions r code =
    let decisions = map (λ a. authorize repository s a r) actions in
    let step =
      In-map-keep (λ (d : AuthorizationDecision). d.allowed)
        (λ (d : AuthorizationDecision). d.permission) code decisions in
    let back =
      Any-map_iff (λ a. authorize repository s a r)
        (λ d. (d.allowed ≡ true) × (code ≡ d.permission)) actions in
    (λ h. back.0 (step.0 h), λ h. step.1 (back.1 h))
