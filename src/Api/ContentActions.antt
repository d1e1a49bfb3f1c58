-- ===== src/Api/ContentActions.antt =====
-- Actions on content runs in apps/api/repositories.py. A handler reads in one transaction and
-- flushes at its end; since other transactions may commit in between, the two halves are two
-- functions, and the handler is one after the other on one database.
pub mod Planned
pub mod Outcomes
pub mod Progress
mod Tests
use aipy.Prelude.{ℕ, String, Bool, Option, some, [], ◌∷◌, find, fstring}
use aipy.Security.{Uuid, TenantContext}
use aipy.Authorization.Policy.{AuthorizationPolicy}
use aipy.Content.StateMachine.{plan_content_transition}
use aipy.Api.Errors.{Result, ok, ◌>>=◌, ◌>>◌, raise, raise_if, or_raise}
use aipy.Api.Rows.{ContentRun, content_run_row}
use aipy.Api.Store.{Table}
use aipy.Api.Preconditions.{
  Resource, ensure_supported, parse_expected_version, require_version, require_permission,
}
use aipy.Api.Flush.{Pending, commit}
use aipy.Api.Boards.{ContentRunSummary, run_board, to_content_run}

abbrev pub by_code : (String → String → Bool) → String → ContentRun → Bool
by_code equal code r = equal r.code code

module _ {Db : Type 0} (runs : Table Db content_run_row)
    (get_policy : TenantContext → Option AuthorizationPolicy) (subject : TenantContext) where
  -- The row with the code, and the two checks on it.
  abbrev pub load_run : String → String → Option ℕ → Db → Result ContentRun
  load_run code action expected db = do
    row ←
        or_raise (find (by_code runs.citext_equal code) (runs.rows db subject.tenant_id)) 404
          "not_found" "content run not found"
    require_version row.row_version expected
    require_permission get_policy subject Resource.content action (run_board row)
    ok row

  -- `apply_content_action`, for a state action, up to `_flush`.
  unfoldable pub plan_run_action :
      String → String → Option String → Uuid → Db → Result (Pending ContentRun)
  plan_run_action code action if_match actor db = do
    ensure_supported action Resource.content
    expected ← parse_expected_version if_match
    row ← load_run code action expected db
    transition ←
        or_raise (plan_content_transition action row.status) 409 "illegal_transition"
          (fstring ("cannot " ∷ action ∷ " a run that is " ∷ row.status ∷ []))
    ok (record {
      loaded = row;
      changed = record row {
        status = transition.status;
        status_label = transition.label;
        tone = transition.tone;
        updated_by = some actor;
        updated_at_label = "刚刚";
      };
    })

  unfoldable pub apply_state_action :
      String → String → Option String → Uuid → Db → Result (ContentRunSummary × Db)
  unfolding plan_run_action
  apply_state_action code action if_match actor db = do
    p ← plan_run_action code action if_match actor db
    commit runs (to_content_run get_policy subject) p db
