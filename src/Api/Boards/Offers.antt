-- ===== src/Api/Boards/Offers.antt =====
-- The actions that a board offers on a row against those that the handlers permit
-- (`_allowed_actions` and `_require_permission` of apps/api/repositories.py).
use aipy.Prelude.{
  String, refl, sym, ap, inl, inr, Option, none, some, List, [], map, arith, ◌≡◌, ◌∙◌, ◌∷◌,
  Option-cases, All, Any, Any-map, In, In-map-keep, contains, contains_iff, fstring, string_eq,
  nat_eq,
}
use aipy.Security.{TenantContext}
use aipy.Authorization.Permission.{Permission, make_permission}
use aipy.Authorization.Policy.{
  AuthorizationPolicy, ResourceContext, DataScopeGrant, PermissionGrant,
}
use aipy.Authorization.Service.{Action, text, authorize, allowed_actions, authorize_by}
use aipy.Authorization.Service.Scopes.{InScope}
use aipy.Authorization.Service.Rules.{StateAllowed, Conflict}
use aipy.Authorization.Service.Decisions.{authorize_iff, Allowed, Grants}
use aipy.Authorization.Service.Isolation.{allowed_actions_iff}
use aipy.Api.Errors.{ok}
use aipy.Api.Preconditions.{
  Resource, resource_type, candidate_actions, BoardRow, short_action, action_code, row_context,
  require_permission, row_actions,
}

-- A candidate is its resource type, a colon and its short name.
candidate_split :
    (kind : Resource)
    → All
        (λ c. fstring (resource_type kind ∷ ":" ∷ short_action c ∷ []) ≡ c)
        (candidate_actions kind)
candidate_split Resource.content =
    (refl, (refl, (refl, (refl, (refl, (refl, (refl, (refl, (refl, (refl, tt))))))))))
candidate_split Resource.review = (refl, (refl, (refl, (refl, (refl, (refl, (refl, tt)))))))
candidate_split Resource.source = (refl, (refl, (refl, (refl, tt))))

-- A row whose assignee is not shown.
abbrev unassigned : BoardRow → BoardRow
unassigned row = record row { assignee_id = none }

module _ (s : TenantContext) (kind : Resource) (row : BoardRow) where
  shown_InScope :
      (g : DataScopeGrant)
      → InScope s (row_context s kind (unassigned row)) g
      → InScope s (row_context s kind row) g
  shown_InScope g (InScope.tenant_all e) = InScope.tenant_all e
  shown_InScope g (InScope.workspace e z w) = InScope.workspace e z w
  shown_InScope g (InScope.own_workspace e z w) = InScope.own_workspace e z w
  shown_InScope g (InScope.team e z w) = InScope.team e z w
  shown_InScope g (InScope.own_team e z w) = InScope.own_team e z w
  shown_InScope g (InScope.assigned e h) = cc h
  shown_InScope g (InScope.created e h) = InScope.created e h
  shown_InScope g (InScope.custom e c k w t i) = InScope.custom e c k w t i

  shown-Grants :
      (code : String) (g : PermissionGrant)
      → Grants s code (row_context s kind (unassigned row)) g
      → Grants s code (row_context s kind row) g
  shown-Grants code g h = (h.0, Any-map g.data_scopes shown_InScope h.1)

  shown_StateAllowed :
      (policy : AuthorizationPolicy) (code : String)
      → StateAllowed policy.workflow_state_policies code (row_context s kind (unassigned row))
      → StateAllowed policy.workflow_state_policies code (row_context s kind row)
  shown_StateAllowed policy code (StateAllowed.no_rule f e) = StateAllowed.no_rule f e
  shown_StateAllowed policy code (StateAllowed.by_rule state e a) = StateAllowed.by_rule state e a

  hidden_Conflict :
      (policy : AuthorizationPolicy) (code : String)
      → Conflict policy.separation_of_duties code s.actor_id (row_context s kind row)
      → Conflict policy.separation_of_duties code s.actor_id (row_context s kind (unassigned row))
  hidden_Conflict policy code (Conflict.submitter a on hit) = Conflict.submitter a on hit
  hidden_Conflict policy code (Conflict.creator a on hit) = Conflict.creator a on hit
  hidden_Conflict policy code (Conflict.editor a on hit) = Conflict.editor a on hit
  hidden_Conflict policy code (Conflict.approver a on hit) = Conflict.approver a on hit

  -- What is allowed on the row without its assignee is allowed on the row.
  shown-Allowed :
      (get_policy : TenantContext → Option AuthorizationPolicy) (action : Action)
      → Allowed get_policy s action (row_context s kind (unassigned row))
      → Allowed get_policy s action (row_context s kind row)
  shown-Allowed get_policy action a = record {
    wanted = a.wanted;
    policy = a.policy;
    normalized = a.normalized;
    same_tenant = a.same_tenant;
    same_type = a.same_type;
    found = a.found;
    permits = record {
      tenant_active = a.permits.tenant_active;
      actor_active = a.permits.actor_active;
      state_allowed = shown_StateAllowed a.policy a.wanted.code a.permits.state_allowed;
      no_conflict = λ c. a.permits.no_conflict (hidden_Conflict a.policy a.wanted.code c);
      granted = Any-map a.policy.permission_grants (shown-Grants a.wanted.code) a.permits.granted;
    };
  }

All-Any : {A : Type 0} {P Q : A → Type 0} (xs : List A) → All P xs → Any Q xs → (x : A) × P x × Q x
All-Any (x ∷ xs) (p, all) (inl q) = (x, p, q)
All-Any (x ∷ xs) (p, all) (inr h) = All-Any xs all h
All-Any [] all h = elim h [ ]

among_texts :
    (P : Action → Type 0) (codes : List String)
    → Any P (map text codes)
    → (code : String) × P (text code)
among_texts P (code ∷ codes) (inl p) = (code, p)
among_texts P (code ∷ codes) (inr h) = among_texts P codes h
among_texts P [] h = elim h [ ]

authorize_by-permission :
    (policy : AuthorizationPolicy) (s : TenantContext) (p : Permission) (r : ResourceContext)
    → (authorize_by policy s p r).permission ≡ p.code
unfolding authorize_by
authorize_by-permission policy s p r = ground arith

made_code : (code : String) (p : Permission) → make_permission code ≡ some p → p.code ≡ code
unfolding make_permission
made_code code p h = ground (arith, h)

module _ (get_policy : TenantContext → Option AuthorizationPolicy) (s : TenantContext) where
  -- A decision on a text names that text.
  authorize-permission :
      (code : String) (r : ResourceContext)
      → (authorize get_policy s (text code) r).permission ≡ code
  unfolding authorize
  authorize-permission code r = elim (Option-cases (make_permission code)) [
    | inl e ↦ rw (e, authorize)
    | inr (p, e) ↦
        let named = made_code code p e in
        elim (Option-cases (get_policy s)) [
          | inl missing ↦ rw (e, authorize) (rw missing (ground (arith, named)))
          | inr (policy, found) ↦
              rw (e, authorize)
                (rw found (ground (arith, named, authorize_by-permission policy s p r)))
        ]
  ]

  -- Every action that a board offers on a row passes the permission check of the handler on that
  -- row.
  pub offered_is_permitted :
      (kind : Resource) (row : BoardRow) (short : String)
      → In short (row_actions get_policy s kind row)
      → require_permission get_policy s kind short row ≡ ok tt
  unfolding row_actions require_permission
  offered_is_permitted kind row short offered =
      let hidden = row_context s kind (unassigned row) in
      let codes = allowed_actions get_policy s (map text (candidate_actions kind)) hidden in
      let chosen =
        (In-map-keep (contains codes) short_action short (candidate_actions kind)).0 offered in
      let (code, split, (kept, same)) =
        All-Any (candidate_actions kind) (candidate_split kind) chosen in
      let listed = (contains_iff codes code).0 kept in
      let (code', (allowed, answered)) = among_texts _ (candidate_actions kind) (
        (allowed_actions_iff get_policy s (map text (candidate_actions kind)) hidden code).0
          listed) in
      let is_code : code' ≡ code = sym (answered ∙ authorize-permission code' hidden) in
      let named : action_code kind short ≡ text code' =
        ap (λ c. action_code kind c) same ∙ ap text (split ∙ sym is_code) in
      let open_row = (authorize_iff get_policy s (text code') (row_context s kind row)).1 (
        shown-Allowed s kind row get_policy (text code')
          ((authorize_iff get_policy s (text code') hidden).0 allowed)) in
      rw (named, open_row) refl
