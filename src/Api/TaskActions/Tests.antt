-- ===== src/Api/TaskActions/Tests.antt =====
-- A task is claimed while another caller approves it, and a creator decides on a task of their own.
use aipy.Prelude.{refl, inl, none, some, List, [], ℕ_discrete, ◌+◌, ◌≡◌, ◌≢◌, ◌∷◌, find, Any}
use aipy.Content.StateMachine.{Transition}
use aipy.Authorization.Service.Decisions.{Grants}
use aipy.Authorization.Service.Scopes.{InScope}
use aipy.Api.Errors.{ok}
use aipy.Api.Rows.{HumanTask, human_task_row}
use aipy.Api.Store.{bumped}
use aipy.Api.Store.Memory.{memory}
use aipy.Api.Preconditions.{Resource, parse_expected_version}
use aipy.Api.Flush.{Pending, commit}
use aipy.Api.Boards.{HumanTaskSummary, to_human_task}
use aipy.Api.TaskActions.{by_code, claim_lease, plan_any_action}
use aipy.Api.TaskActions.Planned.{Planned, plan_any_action-Planned}
use aipy.Api.TaskActions.Duties.{context_of, creator_cannot_approve, creator_submits_approval}
use aipy.Api.Fixtures.{operator, operator_policy, operator_policies, open_task, tasks, no_members}

abbrev claimed : HumanTask
claimed = record open_task {
  status = "CLAIMED";
  updated_by = some 7;
  assignee_id = some 7;
  lease_expires_at = some (100 + claim_lease);
}

abbrev approved : HumanTask
approved = record open_task { status = "COMPLETED"; decision = some "APPROVE"; updated_by = some 7 }

-- A claimed task that the operator created.
abbrev own_task : HumanTask
own_task = record claimed { created_by = some 7 }

abbrev claiming : Pending HumanTask
claiming = record { loaded = open_task; changed = claimed }

abbrev approving : Pending HumanTask
approving = record { loaded = open_task; changed = approved }

abbrev shown : HumanTask → HumanTaskSummary
shown = to_human_task operator_policies operator

abbrev after_claim : List HumanTask
after_claim = bumped human_task_row open_task claimed ∷ []

claim_planned :
    plan_any_action tasks no_members operator_policies operator "HT-1" "claim"
      (some "\"HT-1-v5\"")
      7
      none
      100
      (open_task ∷ [])
    ≡ ok claiming
unfolding plan_any_action aipy.Api.Preconditions.ensure_supported parse_expected_version memory
    aipy.Api.Preconditions.require_version aipy.Api.Preconditions.require_permission
    aipy.Authorization.Service.authorize aipy.Authorization.Permission.make_permission
    aipy.Authorization.Permission.resource aipy.Authorization.Service.authorize_by
    aipy.Authorization.Service.workflow_state_allowed aipy.Authorization.Service.violates_duties
    aipy.Authorization.Service.data_scope_allowed aipy.Authorization.Service.scope_matches
    aipy.Content.StateMachine.plan_task_transition aipy.Content.Status.task_status
claim_planned = refl

approve_planned :
    plan_any_action tasks no_members operator_policies operator "HT-1" "approve"
      (some "\"HT-1-v5\"")
      7
      none
      100
      (open_task ∷ [])
    ≡ ok approving
unfolding plan_any_action aipy.Api.Preconditions.ensure_supported parse_expected_version memory
    aipy.Api.Preconditions.require_version aipy.Api.Preconditions.require_permission
    aipy.Authorization.Service.authorize aipy.Authorization.Permission.make_permission
    aipy.Authorization.Permission.resource aipy.Authorization.Service.authorize_by
    aipy.Authorization.Service.workflow_state_allowed aipy.Authorization.Service.violates_duties
    aipy.Authorization.Service.data_scope_allowed aipy.Authorization.Service.scope_matches
    aipy.Content.StateMachine.plan_task_transition aipy.Content.Status.task_status
approve_planned = refl

claim_committed :
    commit tasks shown claiming (open_task ∷ [])
    ≡ ok (shown (bumped human_task_row open_task claimed), after_claim)
unfolding commit memory aipy.Api.Store.Memory.human_task_discrete aipy.Prelude.ℕ_discrete
claim_committed = refl

claim_changes : claiming.loaded ≢ claiming.changed
claim_changes e = cc e

approve_changes : approving.loaded ≢ approving.changed
approve_changes e = cc e

own_found : find (by_code tasks.citext_equal "HT-1") (tasks.rows (own_task ∷ []) 1) ≡ some own_task
unfolding memory
own_found = refl

own_header : parse_expected_version (some "\"HT-1-v5\"") ≡ ok (some 5)
unfolding parse_expected_version
own_header = refl

may_submit :
    Any
      (Grants operator "review:submit"
        (context_of tasks no_members operator_policies operator own_task))
      operator_policy.permission_grants
may_submit = inl (refl, inl (InScope.tenant_all refl))

plan_any_action-Planned_example :
    Planned tasks no_members operator_policies operator "HT-1" "claim"
      (some "\"HT-1-v5\"")
      (open_task ∷ [])
      claiming
plan_any_action-Planned_example =
    plan_any_action-Planned tasks no_members operator_policies operator "HT-1" "claim"
      (some "\"HT-1-v5\"") 7 none 100 (open_task ∷ []) claiming claim_planned

creator_cannot_approve_example :
    plan_any_action tasks no_members operator_policies operator "HT-1" "approve"
      (some "\"HT-1-v5\"")
      7
      none
      100
      (own_task ∷ [])
    ≢ ok approving
creator_cannot_approve_example =
    creator_cannot_approve tasks no_members operator_policies operator operator_policy "HT-1"
      (some "\"HT-1-v5\"") 7 none 100 (own_task ∷ []) own_task approving refl (inl refl) refl
      own_found refl

creator_submits_approval_example :
    (p : Pending HumanTask) × (plan_any_action tasks no_members operator_policies operator "HT-1"
        "submit"
        (some "\"HT-1-v5\"")
        7
        none
        100
        (own_task ∷ [])
      ≡ ok p)
    × (p.changed.status ≡ "COMPLETED")
    × (p.changed.decision ≡ some "EDIT_AND_APPROVE")
creator_submits_approval_example =
    creator_submits_approval tasks no_members operator_policies operator operator_policy "HT-1"
      (some "\"HT-1-v5\"") none 100 (own_task ∷ []) own_task refl refl refl refl refl may_submit
      own_found own_header refl refl
