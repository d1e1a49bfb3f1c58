-- ===== src/Api/ContentActions/Outcomes.antt =====
-- The outcomes of a state action on a content run: what a success has done, who loses a race, and
-- which check speaks first.
use aipy.Prelude.{
  ℕ, String, ap, subst, true, Option, some, [], arith, ◌≡◌, ◌∙◌, ◌≢◌, ◌∷◌, find, In, fstring,
}
use aipy.Prelude.Decimal.{decimal}
use aipy.Security.{Uuid, TenantContext}
use aipy.Authorization.Policy.{AuthorizationPolicy}
use aipy.Authorization.Service.{authorize}
use aipy.Content.StateMachine.{Transition, plan_content_transition}
use aipy.Content.StateMachine.ContentSteps.{ContentPlan, plan_content_transition_iff}
use aipy.Content.StateMachine.Runs.{cancelled_stays}
use aipy.Api.Errors.{ok, raise, >>=-eq-ok}
use aipy.Api.Rows.{ContentRun, content_run_row}
use aipy.Api.Store.{Table, bumped}
use aipy.Api.Preconditions.{
  Resource, ensure_supported, parse_expected_version, require_version, action_code, row_context,
}
use aipy.Api.Flush.{Pending, commit, conflict, commit-ok, commit_again}
use aipy.Api.Boards.{ContentRunSummary, run_board, to_content_run}
use aipy.Api.ContentActions.{by_code, plan_run_action, apply_state_action}
use aipy.Api.ContentActions.Planned.{moved, plan_run_action-Planned, Planned-changes}

module _ {Db : Type 0} (runs : Table Db content_run_row)
    (get_policy : TenantContext → Option AuthorizationPolicy) (subject : TenantContext) where
  -- What a successful action has checked and done.
  pub record Applied (code action : String) (if_match : Option String) (actor : Uuid) (db : Db)
      (summary : ContentRunSummary) (db' : Db) : Type 0 where
    pub row : ContentRun
    pub transition : Transition
    pub stored : find (by_code runs.citext_equal code) (runs.rows db subject.tenant_id) ≡ some row
    pub own_tenant : row.tenant_id ≡ subject.tenant_id
    pub header : parse_expected_version if_match ≡ ok (some row.row_version)
    pub permitted :
        (authorize get_policy subject
          (action_code Resource.content action)
          (row_context subject Resource.content (run_board row))).allowed
        ≡ true
    pub allowed_step : ContentPlan action row.status transition
    pub answer :
        summary
        ≡ to_content_run get_policy subject
            (bumped content_run_row row (moved runs get_policy subject row transition actor))
    pub kept :
        In
          (bumped content_run_row row (moved runs get_policy subject row transition actor))
          (runs.rows db' row.tenant_id)

  -- A state action that succeeds has found the run in the caller's tenant at the version of the
  -- header and with the permission; it takes a documented step, stores the run under the next
  -- version, and answers with that run.
  pub apply_state_action-ok :
      (code action : String) (if_match : Option String) (actor : Uuid) (db db' : Db)
      (summary : ContentRunSummary)
      → apply_state_action runs get_policy subject code action if_match actor db ≡ ok (summary, db')
      → Applied code action if_match actor db summary db'
  unfolding apply_state_action
  apply_state_action-ok code action if_match actor db db' summary h =
      let (p, planned, committed) =
        >>=-eq-ok (plan_run_action runs get_policy subject code action if_match actor db) _ h in
      let facts =
        plan_run_action-Planned runs get_policy subject code action if_match actor db p planned in
      let target = moved runs get_policy subject p.loaded facts.transition actor in
      let tenant : p.changed.tenant_id ≡ p.loaded.tenant_id =
        ap (λ (r : ContentRun). r.tenant_id) facts.written in
      let (answer, current, kept) =
        commit-ok runs (to_content_run get_policy subject) p db db' summary
          (Planned-changes runs get_policy subject facts) tenant committed in
      record {
        row = p.loaded;
        transition = facts.transition;
        stored = facts.loaded.stored;
        own_tenant = facts.loaded.own_tenant;
        header = facts.header ∙ ap ok facts.loaded.version_read;
        permitted = facts.loaded.permitted;
        allowed_step =
            (plan_content_transition_iff action p.loaded.status facts.transition).0 facts.planned;
        answer =
            answer
            ∙ ap (λ r. to_content_run get_policy subject (bumped content_run_row p.loaded r))
                facts.written;
        kept =
            subst (λ r. In (bumped content_run_row p.loaded r) (runs.rows db' p.loaded.tenant_id))
              facts.written kept;
      }

  -- Of two actions of callers of one tenant that pause, resume, rerun or cancel the same run,
  -- planned in the same database, the second to commit ends in a 409 once the first has committed.
  -- Exports and collections are not covered.
  pub second_action_conflicts :
      (other : TenantContext) (policies : TenantContext → Option AuthorizationPolicy)
      (code action action' : String) (if_match if_match' : Option String) (actor actor' : Uuid)
      (db db' : Db) (p q : Pending ContentRun) (summary : ContentRunSummary)
      → other.tenant_id ≡ subject.tenant_id
      → plan_run_action runs get_policy subject code action if_match actor db ≡ ok p
      → plan_run_action runs policies other code action' if_match' actor' db ≡ ok q
      → commit runs (to_content_run get_policy subject) p db ≡ ok (summary, db')
      → commit runs (to_content_run get_policy subject) q db' ≡ conflict p.loaded.row_version
  second_action_conflicts other policies code action action' if_match if_match' actor actor' db db'
        p q summary same first second done =
      let facts =
        plan_run_action-Planned runs get_policy subject code action if_match actor db p first in
      let facts' =
        plan_run_action-Planned runs policies other code action' if_match' actor' db q second in
      let found =
        subst (λ t. find (by_code runs.citext_equal code) (runs.rows db t) ≡ some q.loaded) same
          facts'.loaded.stored in
      let same_row : q.loaded ≡ p.loaded = cc (found, facts.loaded.stored) in
      commit_again runs (to_content_run get_policy subject) p q db db' summary
        (Planned-changes runs get_policy subject facts)
        (ap (λ (r : ContentRun). r.tenant_id) facts.written)
        (ap (λ (r : ContentRun). r.id) facts.written) same_row
        (Planned-changes runs policies other facts') done

  -- No state action on a cancelled run succeeds, whoever asks.
  pub cancelled_run_refuses :
      (code action : String) (if_match : Option String) (actor : Uuid) (db db' : Db)
      (row : ContentRun) (summary : ContentRunSummary)
      → find (by_code runs.citext_equal code) (runs.rows db subject.tenant_id) ≡ some row
      → row.status ≡ "CANCELLED"
      → apply_state_action runs get_policy subject code action if_match actor db ≢ ok (summary, db')
  cancelled_run_refuses code action if_match actor db db' row summary found cancelled h =
      let facts = apply_state_action-ok code action if_match actor db db' summary h in
      let same : facts.row ≡ row = cc (found, facts.stored) in
      let planned =
        (plan_content_transition_iff action facts.row.status facts.transition).1
          facts.allowed_step in
      let status : facts.row.status ≡ "CANCELLED" =
        ap (λ (r : ContentRun). r.status) same ∙ cancelled in
      let stays = cancelled_stays action in
      let planned' =
        subst (λ t. plan_content_transition action t ≡ some facts.transition) status planned in
      cc (stays, planned')

  -- A supported action on a run that is found, under a header with another version than the run
  -- has, is answered 412, whatever the policy and the status of the run.
  pub stale_header :
      (code action : String) (header : String) (expected : ℕ) (actor : Uuid) (db : Db)
      (row : ContentRun)
      → ensure_supported action Resource.content ≡ ok tt
      → parse_expected_version (some header) ≡ ok (some expected)
      → find (by_code runs.citext_equal code) (runs.rows db subject.tenant_id) ≡ some row
      → expected ≢ row.row_version
      → apply_state_action runs get_policy subject code action (some header) actor db
        ≡ raise 412 "version_conflict" (
            fstring (
              "resource changed since version "
              ∷ decimal expected
              ∷ "; current version is "
              ∷ decimal row.row_version
              ∷ []))
  unfolding apply_state_action require_version
  stale_header code action header expected actor db row supported parsed found stale =
      rw (supported, parsed, found) (ground arith)
