-- ===== src/Authorization/Service/Scopes.antt =====
-- When a data scope covers a resource, as rules, and `_scope_matches` against them.
use aipy.Prelude.{
  refl, subst, inl, inr, Bool, true, false, not, Option, none, some, List, [], arith, ◌≡◌, ◌≢◌, ◌⊎◌,
  ◌&&◌, ◌∷◌, Decides, or_Decides, and_Decides, holds_iff, is_empty, is_empty_iff, Any, any_iff,
  contains, In, contains_iff, string_eq, nat_eq,
}
use aipy.Security.{Uuid, TenantContext}
use aipy.Authorization.Policy.{
  DataScope, CustomScopeConstraint, DataScopeGrant, PermissionGrant, ResourceContext,
}
use aipy.Authorization.Service.{
  member, or_own, custom_matches, scope_matches_by, scope_matches, data_scope_allowed,
}

-- The identifier is there and is listed.
abbrev pub Within : Option Uuid → List Uuid → Type 0
Within o ids = (id : Uuid) × (o ≡ some id) × In id ids

-- A dimension of a custom constraint that is not populated constrains nothing.
abbrev pub Satisfies : List Uuid → Option Uuid → Type 0
Satisfies ids o = (ids ≡ []) ⊎ Within o ids

pub data InScope (s : TenantContext) (r : ResourceContext) (g : DataScopeGrant) : Type 0 where
  tenant_all : g.scope ≡ DataScope.tenant_all → InScope s r g
  workspace :
      g.scope ≡ DataScope.workspace
      → g.workspace_ids ≢ []
      → Within r.workspace_id g.workspace_ids
      → InScope s r g
  own_workspace :
      g.scope ≡ DataScope.workspace
      → g.workspace_ids ≡ []
      → Within r.workspace_id s.workspace_ids
      → InScope s r g
  team : g.scope ≡ DataScope.team → g.team_ids ≢ [] → Within r.team_id g.team_ids → InScope s r g
  own_team :
      g.scope ≡ DataScope.team → g.team_ids ≡ [] → Within r.team_id s.team_ids → InScope s r g
  assigned : g.scope ≡ DataScope.assigned → r.assigned_to ≡ some s.actor_id → InScope s r g
  created : g.scope ≡ DataScope.created_by_me → r.created_by ≡ some s.actor_id → InScope s r g
  custom :
      g.scope ≡ DataScope.custom
      → (c : CustomScopeConstraint) → g.custom ≡ some c
      → Satisfies c.workspace_ids r.workspace_id
      → Satisfies c.team_ids r.team_id
      → Satisfies c.resource_ids r.resource_id
      → InScope s r g

member_iff : (o : Option Uuid) (ids : List Uuid) → Decides (member o ids) (Within o ids)
member_iff none ids = (λ h. cc, λ h. cc (h.1))
member_iff (some id) ids = (
  λ h. (id, refl, (contains_iff ids id).0 h),
  λ h.
      let same : h.0 ≡ id = cc (h.1) in
      subst (λ i. contains ids i ≡ true) same ((contains_iff ids h.0).1 h.2),
)

or_own_cases :
    (o : Option Uuid) (ids own : List Uuid)
    → member o (or_own ids own) ≡ true
    → ((ids ≢ []) × Within o ids) ⊎ ((ids ≡ []) × Within o own)
or_own_cases o [] own h = inr (refl, (member_iff o own).0 h)
or_own_cases o (x ∷ ids) own h = inl (λ e. cc, (member_iff o (x ∷ ids)).0 h)

or_own_listed :
    (o : Option Uuid) (ids own : List Uuid)
    → ids ≢ []
    → Within o ids
    → member o (or_own ids own) ≡ true
or_own_listed o [] own f h = absurd (f refl)
or_own_listed o (x ∷ ids) own f h = (member_iff o (x ∷ ids)).1 h

Satisfies-iff :
    (ids : List Uuid) (o : Option Uuid)
    → Decides (not (not (is_empty ids) && not (member o ids))) (Satisfies ids o)
Satisfies-iff ids o =
    let step = or_Decides (is_empty ids) (member o ids) (is_empty_iff ids) (member_iff o ids) in
    subst (λ b. Decides b (Satisfies ids o)) (ground arith) step

custom_matches_eq :
    (r : ResourceContext) (c : CustomScopeConstraint)
    → custom_matches r c ≡ (
        not (not (is_empty c.workspace_ids) && not (member r.workspace_id c.workspace_ids))
        && (not (not (is_empty c.team_ids) && not (member r.team_id c.team_ids))
            && not (not (is_empty c.resource_ids) && not (member r.resource_id c.resource_ids))))
custom_matches_eq r c = ground arith

custom_matches_iff :
    (r : ResourceContext) (c : CustomScopeConstraint)
    → Decides (custom_matches r c) (
        Satisfies c.workspace_ids r.workspace_id
        × (Satisfies c.team_ids r.team_id × Satisfies c.resource_ids r.resource_id))
custom_matches_iff r c = rw (custom_matches_eq r c) (
    and_Decides _ _ (Satisfies-iff c.workspace_ids r.workspace_id) (
      and_Decides _ _ (Satisfies-iff c.team_ids r.team_id)
        (Satisfies-iff c.resource_ids r.resource_id)))

module _ (s : TenantContext) (r : ResourceContext) (g : DataScopeGrant) where
  custom_InScope :
      (o : Option CustomScopeConstraint)
      → g.custom ≡ o
      → g.scope ≡ DataScope.custom
      → elim o as (λ _. Bool) [ none ↦ false | some c ↦ custom_matches r c ] ≡ true
      → InScope s r g
  custom_InScope none e sc h = cc
  custom_InScope (some c) e sc h =
      let (w, (t, i)) = (custom_matches_iff r c).0 h in custom sc c e w t i

  scope_InScope : (sc : DataScope) → g.scope ≡ sc → scope_matches_by sc s r g ≡ true → InScope s r g
  scope_InScope DataScope.tenant_all e h = tenant_all e
  scope_InScope DataScope.workspace e h =
      elim (or_own_cases r.workspace_id g.workspace_ids s.workspace_ids h) [
        | inl (f, w) ↦ workspace e f w
        | inr (z, w) ↦ own_workspace e z w
      ]
  scope_InScope DataScope.team e h = elim (or_own_cases r.team_id g.team_ids s.team_ids h) [
    | inl (f, w) ↦ team e f w
    | inr (z, w) ↦ own_team e z w
  ]
  scope_InScope DataScope.assigned e h = assigned e ((holds_iff r.assigned_to s.actor_id).0 h)
  scope_InScope DataScope.created_by_me e h = created e ((holds_iff r.created_by s.actor_id).0 h)
  scope_InScope DataScope.custom e h = custom_InScope g.custom refl e h

  InScope_scope : InScope s r g → scope_matches_by g.scope s r g ≡ true
  InScope_scope (tenant_all e) = rw e
  InScope_scope (workspace e f w) =
      rw e (or_own_listed r.workspace_id g.workspace_ids s.workspace_ids f w)
  InScope_scope (own_workspace e z w) = rw (e, z) ((member_iff r.workspace_id s.workspace_ids).1 w)
  InScope_scope (team e f w) = rw e (or_own_listed r.team_id g.team_ids s.team_ids f w)
  InScope_scope (own_team e z w) = rw (e, z) ((member_iff r.team_id s.team_ids).1 w)
  InScope_scope (assigned e h) = rw e ((holds_iff r.assigned_to s.actor_id).1 h)
  InScope_scope (created e h) = rw e ((holds_iff r.created_by s.actor_id).1 h)
  InScope_scope (custom e c k w t i) = rw (e, k) ((custom_matches_iff r c).1 (w, (t, i)))

  -- The data-scope test holds exactly if the scope of the grant covers the resource.
  pub scope_matches_iff : Decides (scope_matches s r g) (InScope s r g)
  unfolding scope_matches
  scope_matches_iff = (scope_InScope g.scope refl, InScope_scope)

-- Some scope of some grant covers the resource.
abbrev pub Covered : TenantContext → ResourceContext → List PermissionGrant → Type 0
Covered s r grants = Any (λ g. Any (InScope s r) g.data_scopes) grants

pub data_scope_allowed_iff :
    (s : TenantContext) (r : ResourceContext) (grants : List PermissionGrant)
    → Decides (data_scope_allowed s r grants) (Covered s r grants)
unfolding data_scope_allowed
data_scope_allowed_iff s r grants =
    any_iff _ grants (λ g. any_iff _ g.data_scopes (λ sg. scope_matches_iff s r sg))
