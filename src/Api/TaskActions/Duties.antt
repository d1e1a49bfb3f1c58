-- ===== src/Api/TaskActions/Duties.antt =====
-- Separation of duties on human tasks: who may decide on a task that they created
-- (apps/api/repositories.py with src/aipy/modules/authorization).
use aipy.Prelude.{
  String, refl, sym, ap, subst, inl, inr, true, Option, some, List, [], arith, eq_iff, ◌≡◌, ◌∙◌,
  ◌≢◌, nat_beq_iff, find, Any, In,
}
use aipy.Security.{Uuid, TenantContext}
use aipy.Authorization.Permission.{Permission, make_permission, resource}
use aipy.Authorization.Permission.Laws.{make_permission-split}
use aipy.Authorization.Policy.{AuthorizationPolicy, ResourceContext, default_duties}
use aipy.Authorization.Service.{authorize}
use aipy.Authorization.Service.Rules.{
  creator, Conflict, StateAllowed, no_rule, submitter, editor, approver,
}
use aipy.Authorization.Service.Decisions.{authorize_iff, Grants, Permits}
use aipy.Content.Status.{TaskStatus, TaskDecision}
use aipy.Content.StateMachine.{Transition, plan_task_transition}
use aipy.Content.StateMachine.TaskSteps.{task_transition_to, plan_task_transition_iff, submit}
use aipy.Api.Errors.{ok}
use aipy.Organization.{TenantMembership}
use aipy.Api.Rows.{HumanTask, human_task_row, Time}
use aipy.Api.Store.{Table}
use aipy.Api.Preconditions.{
  Resource, action_code, row_context, require_version, require_permission, ensure_supported,
  parse_expected_version,
}
use aipy.Api.Boards.{task_board}
use aipy.Api.Flush.{Pending}
use aipy.Api.TaskActions.{by_code, plan_any_action, handed, moved, Transition, plan_task_transition}
use aipy.Api.TaskActions.Planned.{plan_any_action-Planned}

no_approval : ¬ In "review:submit" default_duties.approval_permissions
no_approval (inl e) = ground (arith, eq_iff "review:submit" "review:approve", e)
no_approval (inr h) = h

no_publishing : ¬ In "review:submit" default_duties.publishing_permissions
no_publishing (inl e) = ground (arith, eq_iff "review:submit" "publication:publish", e)
no_publishing (inr h) = h

module _ {Db : Type 0} (tasks : Table Db human_task_row)
    (memberships : Db → Uuid → List TenantMembership)
    (get_policy : TenantContext → Option AuthorizationPolicy) (subject : TenantContext) where
  -- Where the duty rules of the caller's policy cover review:approve and forbid approval by
  -- creators, no approval of a task that the caller created gets as far as a write.
  pub creator_cannot_approve :
      (policy : AuthorizationPolicy) (code : String) (if_match : Option String) (actor : Uuid)
      (assignee : Option Uuid) (now : Time) (db : Db) (row : HumanTask) (p : Pending HumanTask)
      → get_policy subject ≡ some policy
      → In "review:approve" policy.separation_of_duties.approval_permissions
      → policy.separation_of_duties.forbid_creator_approval ≡ true
      → find (by_code tasks.citext_equal code) (tasks.rows db subject.tenant_id) ≡ some row
      → row.created_by ≡ some subject.actor_id
      → plan_any_action tasks memberships get_policy subject code "approve" if_match actor assignee
          now db
        ≢ ok p
  creator_cannot_approve policy code if_match actor assignee now db row p found duty on stored mine
        h =
      let facts =
        plan_any_action-Planned tasks memberships get_policy subject code "approve" if_match actor
          assignee now db p h in
      let allowed =
        (authorize_iff get_policy subject (action_code Resource.review "approve")
            (row_context subject Resource.review (task_board p.loaded))).0
          facts.permitted in
      let (half, taken, named, good, same_code, whole) =
        make_permission-split "review:approve" allowed.wanted allowed.normalized in
      let same_policy : allowed.policy ≡ policy = cc (found, allowed.found) in
      let same_row : p.loaded ≡ row = cc (stored, facts.stored) in
      allowed.permits.no_conflict (
        creator
          (subst (λ c. In c allowed.policy.separation_of_duties.approval_permissions)
            (sym same_code)
            (subst
              (λ (q : AuthorizationPolicy).
                In "review:approve" q.separation_of_duties.approval_permissions)
              (sym same_policy) duty))
          (ap (λ (q : AuthorizationPolicy). q.separation_of_duties.forbid_creator_approval)
              same_policy
            ∙ on)
          (ap (λ (r : HumanTask). r.created_by) same_row ∙ mine))

  abbrev pub context_of : HumanTask → ResourceContext
  context_of row = row_context subject Resource.review (task_board row)

  abbrev submit_permission : Permission
  submit_permission = record { code = "review:submit" }

  submit_has_no-Conflict :
      (actor : Uuid) (r : ResourceContext) → ¬ Conflict default_duties "review:submit" actor r
  submit_has_no-Conflict actor r (creator a on hit) = no_approval a
  submit_has_no-Conflict actor r (submitter a on hit) = no_approval a
  submit_has_no-Conflict actor r (editor a on hit) = no_publishing a
  submit_has_no-Conflict actor r (approver a on hit) = no_publishing a

  submit_permitted :
      (policy : AuthorizationPolicy) (row : HumanTask)
      → policy.tenant_active ≡ true
      → policy.actor_active ≡ true
      → policy.workflow_state_policies ≡ []
      → policy.separation_of_duties ≡ default_duties
      → Any (Grants subject "review:submit" (context_of row)) policy.permission_grants
      → Permits policy subject "review:submit" (context_of row)
  submit_permitted policy row tenant_on actor_on no_rules duties granted = record {
    tenant_active = tenant_on;
    actor_active = actor_on;
    state_allowed =
        subst (λ rules. StateAllowed rules "review:submit" (context_of row)) (sym no_rules)
          (no_rule (λ h. h) refl);
    no_conflict =
        subst (λ d. ¬ Conflict d "review:submit" subject.actor_id (context_of row)) (sym duties)
          (submit_has_no-Conflict subject.actor_id (context_of row));
    granted = granted;
  }

  plan_submit :
      (code : String) (if_match : Option String) (actor : Uuid) (assignee : Option Uuid)
      (now : Time) (db : Db) (row : HumanTask) (t : Transition)
      → find (by_code tasks.citext_equal code) (tasks.rows db subject.tenant_id) ≡ some row
      → parse_expected_version if_match ≡ ok (some row.row_version)
      → (authorize get_policy subject
          (action_code Resource.review "submit")
          (context_of row)).allowed
        ≡ true
      → plan_task_transition "submit" row.status ≡ some t
      → plan_any_action tasks memberships get_policy subject code "submit" if_match actor assignee
          now db
        ≡ ok (record {
          loaded = row;
          changed = handed "submit" actor assignee now (moved t actor row);
        })
  unfolding plan_any_action require_version require_permission ensure_supported
  plan_submit code if_match actor assignee now db row t stored header allowed planned =
      rw (header, stored, allowed, planned, (nat_beq_iff row.row_version row.row_version).1 refl)

  -- Under a policy with the default duties, tenant and actor active, no workflow rules and a grant
  -- of review:submit that covers the task, a caller who created a claimed task and sends its
  -- version submits it: the plan completes the task with the decision EDIT_AND_APPROVE.
  pub creator_submits_approval :
      (policy : AuthorizationPolicy) (code : String) (if_match : Option String)
      (assignee : Option Uuid) (now : Time) (db : Db) (row : HumanTask)
      → get_policy subject ≡ some policy
      → policy.tenant_active ≡ true
      → policy.actor_active ≡ true
      → policy.workflow_state_policies ≡ []
      → policy.separation_of_duties ≡ default_duties
      → Any (Grants subject "review:submit" (context_of row)) policy.permission_grants
      → find (by_code tasks.citext_equal code) (tasks.rows db subject.tenant_id) ≡ some row
      → parse_expected_version if_match ≡ ok (some row.row_version)
      → row.status ≡ "CLAIMED"
      → row.created_by ≡ some subject.actor_id
      → (p : Pending HumanTask) × (plan_any_action tasks memberships get_policy subject code
            "submit" if_match subject.actor_id assignee now db
          ≡ ok p)
        × (p.changed.status ≡ "COMPLETED")
        × (p.changed.decision ≡ some "EDIT_AND_APPROVE")
  unfolding handed moved make_permission resource
  creator_submits_approval policy code if_match assignee now db row found tenant_on actor_on
        no_rules duties granted stored header claimed mine =
      let allowed =
        (authorize_iff get_policy subject (action_code Resource.review "submit") (context_of row)).1
          (record {
            wanted = submit_permission;
            policy = policy;
            normalized = refl;
            same_tenant = refl;
            same_type = refl;
            found = found;
            permits = submit_permitted policy row tenant_on actor_on no_rules duties granted;
          }) in
      let target = task_transition_to TaskStatus.completed (some TaskDecision.edit_and_approve) in
      let planned = (plan_task_transition_iff "submit" row.status target).1 (
        TaskStatus.claimed,
        TaskStatus.completed,
        some TaskDecision.edit_and_approve,
        sym claimed,
        submit refl refl refl refl,
        refl,
      ) in
      (
        record {
          loaded = row;
          changed =
              handed "submit" subject.actor_id assignee now (moved target subject.actor_id row);
        },
        plan_submit code if_match subject.actor_id assignee now db row target stored header allowed
            planned,
        refl,
        refl,
      )
