-- ===== src/Api/ContentActions/Progress.antt =====
-- A state action whose checks hold goes through (apps/api/repositories.py, `apply_content_action`).
use aipy.Prelude.{String, refl, true, Option, some, ◌≡◌, nat_beq_iff, find}
use aipy.Security.{Uuid, TenantContext}
use aipy.Authorization.Policy.{AuthorizationPolicy}
use aipy.Authorization.Service.{authorize}
use aipy.Content.Status.{ContentStatus}
use aipy.Content.StateMachine.{Transition}
use aipy.Content.StateMachine.ContentSteps.{
  ContentStep, pause, resume, rerun, cancel, ContentPlan, plan_content_transition_iff,
}
use aipy.Api.Errors.{ok}
use aipy.Api.Rows.{ContentRun, content_run_row}
use aipy.Api.Store.{Table}
use aipy.Api.Preconditions.{
  Resource, ensure_supported, parse_expected_version, require_version, require_permission,
  action_code, row_context,
}
use aipy.Api.Boards.{run_board}
use aipy.Api.ContentActions.{by_code, load_run, plan_run_action}
use aipy.Api.ContentActions.Planned.{moved}

module _ {Db : Type 0} (runs : Table Db content_run_row)
    (get_policy : TenantContext → Option AuthorizationPolicy) (subject : TenantContext) where
  step-supported :
      (action : String) (s t : ContentStatus)
      → ContentStep action s t
      → ensure_supported action Resource.content ≡ ok tt
  unfolding ensure_supported
  step-supported action s t (pause e from to) = rw e refl
  step-supported action s t (resume e from to) = rw e refl
  step-supported action s t (rerun e from to) = rw e refl
  step-supported action s t (cancel e f g to) = rw e refl

  load_run-found :
      (code action : String) (db : Db) (row : ContentRun)
      → find (by_code runs.citext_equal code) (runs.rows db subject.tenant_id) ≡ some row
      → (authorize get_policy subject
          (action_code Resource.content action)
          (row_context subject Resource.content (run_board row))).allowed
        ≡ true
      → load_run runs get_policy subject code action (some row.row_version) db ≡ ok row
  unfolding require_version require_permission
  load_run-found code action db row found allowed =
      let current = (nat_beq_iff row.row_version row.row_version).1 refl in
      rw found (rw (current, allowed) refl)

  -- If the header carries the version of the run that is stored under the code, the policy allows
  -- the action on it and a documented step leads from its status by that action, then the action is
  -- planned, with the status of the step's target.
  pub plan_run_action-goes_through :
      (code action : String) (if_match : Option String) (actor : Uuid) (db : Db) (row : ContentRun)
      (t : Transition)
      → parse_expected_version if_match ≡ ok (some row.row_version)
      → find (by_code runs.citext_equal code) (runs.rows db subject.tenant_id) ≡ some row
      → (authorize get_policy subject
          (action_code Resource.content action)
          (row_context subject Resource.content (run_board row))).allowed
        ≡ true
      → ContentPlan action row.status t
      → plan_run_action runs get_policy subject code action if_match actor db
        ≡ ok (record { loaded = row; changed = moved runs get_policy subject row t actor })
  unfolding plan_run_action
  plan_run_action-goes_through code action if_match actor db row t header found allowed plan =
      let planned = (plan_content_transition_iff action row.status t).1 plan in
      let (s, s', _n, step, _s) = plan in
      let loaded = load_run-found code action db row found allowed in
      rw (step-supported action s s' step) (rw header (rw loaded (rw planned refl)))
