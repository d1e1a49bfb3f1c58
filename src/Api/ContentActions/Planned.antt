-- ===== src/Api/ContentActions/Planned.antt =====
-- What holds when a state action on a content run is planned (apps/api/repositories.py,
-- `apply_content_action`).
use aipy.Prelude.{ℕ, String, refl, ap, subst, true, Option, some, ◌≡◌, ◌∙◌, ◌≢◌, find, All-find}
use aipy.Security.{Uuid, TenantContext}
use aipy.Authorization.Policy.{AuthorizationPolicy}
use aipy.Authorization.Service.{authorize}
use aipy.Content.Status.{content_value, content_value_inj}
use aipy.Content.StateMachine.{Transition, plan_content_transition}
use aipy.Content.StateMachine.ContentSteps.{ContentStep-changes, plan_content_transition_iff}
use aipy.Api.Errors.{or_raise, ok, >>=-eq-ok, >>-eq-ok, or_raise-eq-ok, ok_inj}
use aipy.Api.Rows.{ContentRun, content_run_row}
use aipy.Api.Store.{Table}
use aipy.Api.Preconditions.{
  ensure_supported, Resource, parse_expected_version, require_version, require_permission,
  action_code, row_context, require_version-ok, require_permission-ok,
}
use aipy.Api.Boards.{run_board}
use aipy.Api.Flush.{Pending}
use aipy.Api.ContentActions.{by_code, load_run, plan_run_action, or_raise}

module _ {Db : Type 0} (runs : Table Db content_run_row)
    (get_policy : TenantContext → Option AuthorizationPolicy) (subject : TenantContext) where
  -- The row is stored under the code and belongs to the tenant, the header carries its version, and
  -- the policy allows the action on it.
  pub record Loaded (code action : String) (expected : Option ℕ) (db : Db) (row : ContentRun)
      : Type 0 where
    pub stored : find (by_code runs.citext_equal code) (runs.rows db subject.tenant_id) ≡ some row
    pub own_tenant : row.tenant_id ≡ subject.tenant_id
    pub version_read : expected ≡ some row.row_version
    pub permitted :
        (authorize get_policy subject
          (action_code Resource.content action)
          (row_context subject Resource.content (run_board row))).allowed
        ≡ true

  pub load_run-Loaded :
      (code action : String) (expected : Option ℕ) (db : Db) (row : ContentRun)
      → load_run runs get_policy subject code action expected db ≡ ok row
      → Loaded code action expected db row
  load_run-Loaded code action expected db row h =
      let (r, found, h₁) =
        >>=-eq-ok
          (or_raise (find (by_code runs.citext_equal code) (runs.rows db subject.tenant_id)) _ _ _)
          _ h in
      let (version, h₂) = >>-eq-ok (require_version r.row_version expected) _ h₁ in
      let (permission, h₃) =
        >>-eq-ok (require_permission get_policy subject Resource.content action (run_board r)) _
          h₂ in
      let stored =
        or_raise-eq-ok (find (by_code runs.citext_equal code) (runs.rows db subject.tenant_id)) _ _
          _ found in
      subst (Loaded code action expected db) (ok_inj h₃) (record {
        stored = stored;
        own_tenant =
            All-find (λ x. x.tenant_id ≡ subject.tenant_id) (by_code runs.citext_equal code)
              (runs.rows db subject.tenant_id) r (runs.rows_scoped db subject.tenant_id) stored;
        version_read = require_version-ok r.row_version expected version;
        permitted = require_permission-ok get_policy subject Resource.content action _ permission;
      })

  -- The row with the columns that a transition writes.
  abbrev pub moved : ContentRun → Transition → Uuid → ContentRun
  moved row t actor = record row {
    status = t.status;
    status_label = t.label;
    tone = t.tone;
    updated_by = some actor;
    updated_at_label = "刚刚";
  }

  -- What a planned action rests on, and what it will write.
  pub record Planned (code action : String) (if_match : Option String) (actor : Uuid) (db : Db)
      (p : Pending ContentRun) : Type 0 where
    pub expected : Option ℕ
    pub header : parse_expected_version if_match ≡ ok expected
    pub loaded : Loaded code action expected db p.loaded
    pub transition : Transition
    pub planned : plan_content_transition action p.loaded.status ≡ some transition
    pub written : p.changed ≡ moved p.loaded transition actor

  pub plan_run_action-Planned :
      (code action : String) (if_match : Option String) (actor : Uuid) (db : Db)
      (p : Pending ContentRun)
      → plan_run_action runs get_policy subject code action if_match actor db ≡ ok p
      → Planned code action if_match actor db p
  unfolding plan_run_action
  plan_run_action-Planned code action if_match actor db p h =
      let (_s, h₁) = >>-eq-ok (ensure_supported action Resource.content) _ h in
      let (expected, header, h₂) = >>=-eq-ok (parse_expected_version if_match) _ h₁ in
      let (row, found, h₃) =
        >>=-eq-ok (load_run runs get_policy subject code action expected db) _ h₂ in
      let (t, planned, answer) =
        >>=-eq-ok (or_raise (plan_content_transition action row.status) _ _ _) _ h₃ in
      subst (Planned code action if_match actor db) (ok_inj answer) (record {
        expected = expected;
        header = header;
        loaded = load_run-Loaded code action expected db row found;
        transition = t;
        planned = or_raise-eq-ok (plan_content_transition action row.status) _ _ _ planned;
        written = refl;
      })

  -- A planned action changes the status, so its flush is a real write.
  pub Planned-changes :
      {code action : String} {if_match : Option String} {actor : Uuid} {db : Db}
      {p : Pending ContentRun}
      → Planned code action if_match actor db p
      → p.loaded ≢ p.changed
  Planned-changes {action = action} {p = p} h same =
      let (s, t, named, step, shown) =
        (plan_content_transition_iff action p.loaded.status h.transition).0 h.planned in
      let next : content_value s ≡ content_value t =
        named ∙ ap (λ (r : ContentRun). r.status) (same ∙ h.written) ∙ ap (λ q. q.status) shown in
      ContentStep-changes action s t step (content_value_inj s t next)
