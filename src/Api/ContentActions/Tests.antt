-- ===== src/Api/ContentActions/Tests.antt =====
-- A run is paused, and a second caller comes late.
use aipy.Prelude.{refl, true, none, some, List, [], arith, ℕ_discrete, ◌≡◌, ◌≢◌, ◌∷◌, find}
use aipy.Content.StateMachine.{Transition}
use aipy.Api.Errors.{ok}
use aipy.Api.Rows.{ContentRun, content_run_row}
use aipy.Api.Store.{bumped}
use aipy.Api.Flush.{Pending, commit, conflict}
use aipy.Api.Boards.{ContentRunSummary, run_board, to_content_run}
use aipy.Api.ContentActions.{by_code, plan_run_action, apply_state_action}
use aipy.Api.ContentActions.Progress.{plan_run_action-goes_through}
use aipy.Authorization.Service.{authorize}
use aipy.Content.StateMachine.ContentSteps.{ContentPlan, plan_content_transition_iff}
use aipy.Api.Preconditions.{
  Resource, ensure_supported, parse_expected_version, action_code, row_context,
}
use aipy.Api.ContentActions.Outcomes.{second_action_conflicts}
use aipy.Api.Store.Memory.{memory}
use aipy.Api.Fixtures.{operator, operator_policies, running, runs}

abbrev paused : ContentRun
paused = record running {
  status = "PAUSED";
  status_label = "已暂停";
  tone = "warning";
  updated_by = some 7;
  updated_at_label = "刚刚";
}

abbrev stopped : ContentRun
stopped = record paused { status = "CANCELLED"; status_label = "已取消"; tone = "neutral" }

abbrev pausing : Pending ContentRun
pausing = record { loaded = running; changed = paused }

abbrev stopping : Pending ContentRun
stopping = record { loaded = running; changed = stopped }

abbrev after_pause : List ContentRun
after_pause = bumped content_run_row running paused ∷ []

abbrev shown : ContentRun → ContentRunSummary
shown = to_content_run operator_policies operator

pause_planned :
    plan_run_action runs operator_policies operator "CR-1" "pause"
      (some "\"CR-1-v3\"")
      7
      (running ∷ [])
    ≡ ok pausing
unfolding plan_run_action ensure_supported parse_expected_version memory
    aipy.Api.Preconditions.require_version aipy.Api.Preconditions.require_permission
    aipy.Authorization.Service.authorize aipy.Authorization.Permission.make_permission
    aipy.Authorization.Permission.resource aipy.Authorization.Service.authorize_by
    aipy.Authorization.Service.workflow_state_allowed aipy.Authorization.Service.violates_duties
    aipy.Authorization.Service.data_scope_allowed aipy.Authorization.Service.scope_matches
    aipy.Content.StateMachine.plan_content_transition aipy.Content.Status.content_status
pause_planned = refl

stop_planned :
    plan_run_action runs operator_policies operator "CR-1" "cancel"
      (some "W/\"CR-1-v3\"")
      7
      (running ∷ [])
    ≡ ok stopping
unfolding plan_run_action ensure_supported parse_expected_version memory
    aipy.Api.Preconditions.require_version aipy.Api.Preconditions.require_permission
    aipy.Authorization.Service.authorize aipy.Authorization.Permission.make_permission
    aipy.Authorization.Permission.resource aipy.Authorization.Service.authorize_by
    aipy.Authorization.Service.workflow_state_allowed aipy.Authorization.Service.violates_duties
    aipy.Authorization.Service.data_scope_allowed aipy.Authorization.Service.scope_matches
    aipy.Content.StateMachine.plan_content_transition aipy.Content.Status.content_status
stop_planned = refl

pause_committed :
    commit runs shown pausing (running ∷ [])
    ≡ ok (shown (bumped content_run_row running paused), after_pause)
unfolding commit memory aipy.Api.Store.Memory.content_run_discrete aipy.Prelude.ℕ_discrete
pause_committed = refl

pause_applied :
    apply_state_action runs operator_policies operator "CR-1" "pause"
      (some "\"CR-1-v3\"")
      7
      (running ∷ [])
    ≡ ok (shown (bumped content_run_row running paused), after_pause)
unfolding apply_state_action
pause_applied = rw pause_planned pause_committed

pause_supported : ensure_supported "pause" Resource.content ≡ ok tt
unfolding ensure_supported
pause_supported = refl

old_header : parse_expected_version (some "\"CR-1-v2\"") ≡ ok (some 2)
unfolding parse_expected_version
old_header = refl

older : 2 ≢ running.row_version
older e = omega (arith, e)

second_action_conflicts_example : commit runs shown stopping after_pause ≡ conflict 3
second_action_conflicts_example =
    second_action_conflicts runs operator_policies operator operator operator_policies "CR-1"
      "pause" "cancel" (some "\"CR-1-v3\"") (some "W/\"CR-1-v3\"") 7 7 (running ∷ []) after_pause
      pausing stopping (shown (bumped content_run_row running paused)) refl pause_planned
      stop_planned pause_committed

running_found : find (by_code runs.citext_equal "CR-1") (runs.rows (running ∷ []) 1) ≡ some running
unfolding memory
running_found = refl

stopped_found : find (by_code runs.citext_equal "CR-1") (runs.rows (stopped ∷ []) 1) ≡ some stopped
unfolding memory
stopped_found = refl

current_header : parse_expected_version (some "\"CR-1-v3\"") ≡ ok (some 3)
unfolding parse_expected_version
current_header = refl

pause_allowed :
    (authorize operator_policies operator
      (action_code Resource.content "pause")
      (row_context operator Resource.content (run_board running))).allowed
    ≡ true
unfolding authorize aipy.Authorization.Permission.make_permission
    aipy.Authorization.Permission.resource aipy.Authorization.Service.authorize_by
    aipy.Authorization.Service.workflow_state_allowed aipy.Authorization.Service.violates_duties
    aipy.Authorization.Service.data_scope_allowed aipy.Authorization.Service.scope_matches
pause_allowed = refl

pause_step :
    ContentPlan "pause" "RUNNING"
      (record { status = "PAUSED"; label = "已暂停"; tone = "warning"; decision = none })
unfolding aipy.Content.StateMachine.plan_content_transition aipy.Content.Status.content_status
pause_step = (plan_content_transition_iff "pause" "RUNNING" _).0 refl

plan_run_action-goes_through_example :
    plan_run_action runs operator_policies operator "CR-1" "pause"
      (some "\"CR-1-v3\"")
      7
      (running ∷ [])
    ≡ ok pausing
plan_run_action-goes_through_example =
    plan_run_action-goes_through runs operator_policies operator "CR-1" "pause" (some "\"CR-1-v3\"")
      7 (running ∷ []) running
      (record { status = "PAUSED"; label = "已暂停"; tone = "warning"; decision = none })
      current_header running_found pause_allowed pause_step
