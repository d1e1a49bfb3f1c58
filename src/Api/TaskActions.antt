-- ===== src/Api/TaskActions.antt =====
-- Actions on human tasks in apps/api/repositories.py: claim, reassign, submit, approve, reject and
-- assign. The time of the call is an argument.
pub mod Invariant
pub mod Planned
pub mod Duties
mod Tests
use aipy.Prelude.{
  String, Bool, not, Option, none, some, List, [], ◌+◌, ◌*◌, ◌&&◌, ◌∷◌, ◌==◌, if◌then◌else◌,
  is_none, any, find, contains, fstring, string_eq, nat_eq,
}
use aipy.Security.{Uuid, TenantContext}
use aipy.Authorization.Policy.{AuthorizationPolicy}
use aipy.Content.StateMachine.{Transition, plan_task_transition}
use aipy.Api.Errors.{Result, ok, ◌>>=◌, ◌>>◌, raise_if, or_raise}
use aipy.Organization.{TenantMembership}
use aipy.Api.Rows.{HumanTask, human_task_row, Time}
use aipy.Api.Store.{Table}
use aipy.Api.Preconditions.{
  Resource, ensure_supported, parse_expected_version, require_version, require_permission,
}
use aipy.Api.Flush.{Pending, commit}
use aipy.Api.Boards.{HumanTaskSummary, task_board, to_human_task}

-- `CLAIM_LEASE`, two hours
abbrev pub claim_lease : Time
claim_lease = 2 * 60 * 60 * 1000000

abbrev pub by_code : (String → String → Bool) → String → HumanTask → Bool
by_code equal code r = equal r.code code

-- The columns that a transition writes, and those that the action writes besides.
unfoldable pub moved : Transition → Uuid → HumanTask → HumanTask
moved t actor row = record row { status = t.status; decision = t.decision; updated_by = some actor }

unfoldable pub handed : String → Uuid → Option Uuid → Time → HumanTask → HumanTask
handed action actor assignee now row =
    if action == "claim"
    then record row { assignee_id = some actor; lease_expires_at = some (now + claim_lease) }
    else if action == "reassign"
    then record row {
      assignee_id = assignee;
      lease_expires_at = if is_none assignee then none else some (now + claim_lease);
    }
    else if contains ("approve" ∷ "reject" ∷ "submit" ∷ []) action
    then record row { lease_expires_at = none }
    else row

-- The columns that `_apply_assign` writes.
unfoldable pub assigned : Uuid → Uuid → Time → HumanTask → HumanTask
assigned assignee actor now row = record row {
  assignee_id = some assignee;
  status = if row.status == "OPEN" then "CLAIMED" else row.status;
  decision = none;
  updated_by = some actor;
  lease_expires_at = some (now + claim_lease);
}

-- `_member_exists`, over the memberships that the session sees.
unfoldable pub member_exists : List TenantMembership → Uuid → Uuid → Bool
member_exists memberships tenant user =
    any
      (λ (m : TenantMembership).
        m.tenant_id == tenant && (m.user_id == user && m.status == "ACTIVE"))
      memberships

module _ {Db : Type 0} (tasks : Table Db human_task_row)
    (memberships : Db → Uuid → List TenantMembership)
    (get_policy : TenantContext → Option AuthorizationPolicy) (subject : TenantContext) where
  abbrev pub find_task : String → Db → Result HumanTask
  find_task code db =
      or_raise (find (by_code tasks.citext_equal code) (tasks.rows db subject.tenant_id)) 404
        "not_found" "human task not found"

  -- `apply_human_task_action`, for a state action, up to `_flush`.
  unfoldable pub plan_task_action :
      String → String → Option String → Uuid → Option Uuid → Time → Db → Result (Pending HumanTask)
  unfolding moved handed
  plan_task_action code action if_match actor assignee now db = do
    ensure_supported action Resource.review
    expected ← parse_expected_version if_match
    row ← find_task code db
    require_version row.row_version expected
    require_permission get_policy subject Resource.review action (task_board row)
    transition ←
        or_raise (plan_task_transition action row.status) 409 "illegal_transition"
          (fstring ("cannot " ∷ action ∷ " a task that is " ∷ row.status ∷ []))
    ok (record {
      loaded = row;
      changed = handed action actor assignee now (moved transition actor row);
    })

  -- `_apply_assign`, up to `_flush`.
  unfoldable pub plan_assign :
      String → Option Uuid → Option String → Uuid → Time → Db → Result (Pending HumanTask)
  unfolding assigned member_exists
  plan_assign code assignee_id if_match actor now db = do
    assignee ← or_raise assignee_id 400 "invalid_assignee" "assign requires a target member"
    expected ← parse_expected_version if_match
    row ← find_task code db
    raise_if (not (member_exists (memberships db subject.tenant_id) subject.tenant_id assignee)) 400
        "invalid_assignee" "assignee is not an active member of this tenant"
    require_version row.row_version expected
    require_permission get_policy subject Resource.review "assign" (task_board row)
    raise_if (not (contains ("OPEN" ∷ "CLAIMED" ∷ []) row.status)) 409 "illegal_transition"
        (fstring ("cannot assign a task that is " ∷ row.status ∷ []))
    ok (record { loaded = row; changed = assigned assignee actor now row })

  -- Either of them, by the action.
  unfoldable pub plan_any_action :
      String → String → Option String → Uuid → Option Uuid → Time → Db → Result (Pending HumanTask)
  unfolding plan_task_action plan_assign
  plan_any_action code action if_match actor assignee now db =
      if action == "assign"
      then plan_assign code assignee if_match actor now db
      else plan_task_action code action if_match actor assignee now db

  unfoldable pub apply_human_task_action :
      String
      → String
      → Option String
      → Uuid
      → Option Uuid
      → Time
      → Db
      → Result (HumanTaskSummary × Db)
  unfolding plan_any_action
  apply_human_task_action code action if_match actor assignee now db = do
    p ← plan_any_action code action if_match actor assignee now db
    commit tasks (to_human_task get_policy subject) p db
