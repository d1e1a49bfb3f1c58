-- ===== src/Api/TaskActions/Planned.antt =====
-- What holds when an action on a human task is planned, and who loses a race
-- (apps/api/repositories.py, `apply_human_task_action` and `_apply_assign`).
use aipy.Prelude.{
  String, refl, sym, ap, subst, inl, inr, true, not, Option, some, List, [], arith, eq_iff, ◌≡◌,
  ◌∙◌, ◌≢◌, ◌∷◌, ◌==◌, Bool-cases, not-false, find, All-find, contains, string_eq, nat_eq,
}
use aipy.Security.{Uuid, TenantContext}
use aipy.Authorization.Policy.{AuthorizationPolicy}
use aipy.Authorization.Service.{authorize}
use aipy.Content.StateMachine.{Transition, plan_task_transition}
use aipy.Content.StateMachine.TaskSteps.{plan_task_transition_iff}
use aipy.Api.Errors.{
  ok, or_raise, raise_if, >>=-eq-ok, >>-eq-ok, raise_if-eq-ok, or_raise-eq-ok, ok_inj,
}
use aipy.Organization.{TenantMembership}
use aipy.Api.Rows.{HumanTask, human_task_row, Time}
use aipy.Api.Store.{Table}
use aipy.Api.Preconditions.{
  Resource, ensure_supported, parse_expected_version, require_version, require_permission,
  action_code, row_context, require_version-ok, require_permission-ok,
}
use aipy.Api.Boards.{HumanTaskSummary, task_board, to_human_task}
use aipy.Api.Flush.{Pending, commit, conflict, commit_again}
use aipy.Api.TaskActions.{
  by_code, moved, handed, assigned, member_exists, find_task, plan_task_action, plan_assign,
  plan_any_action,
}
use aipy.Api.TaskActions.Invariant.{IsConsistent, step-IsConsistent, assigned-IsConsistent}

module _ {Db : Type 0} (tasks : Table Db human_task_row)
    (memberships : Db → Uuid → List TenantMembership)
    (get_policy : TenantContext → Option AuthorizationPolicy) (subject : TenantContext) where
  -- The task is stored in the tenant, the header carries its version, the policy allows the action,
  -- and the row to be written is the same row in a consistent state.
  pub record Planned (code action : String) (if_match : Option String) (db : Db)
      (p : Pending HumanTask) : Type 0 where
    pub stored :
        find (by_code tasks.citext_equal code) (tasks.rows db subject.tenant_id) ≡ some p.loaded
    pub own_tenant : p.loaded.tenant_id ≡ subject.tenant_id
    pub header : parse_expected_version if_match ≡ ok (some p.loaded.row_version)
    pub permitted :
        (authorize get_policy subject
          (action_code Resource.review action)
          (row_context subject Resource.review (task_board p.loaded))).allowed
        ≡ true
    pub same_id : p.changed.id ≡ p.loaded.id
    pub same_tenant : p.changed.tenant_id ≡ p.loaded.tenant_id
    pub consistent : IsConsistent p.changed

  found_in_tenant :
      (code : String) (db : Db) (row : HumanTask)
      → find (by_code tasks.citext_equal code) (tasks.rows db subject.tenant_id) ≡ some row
      → row.tenant_id ≡ subject.tenant_id
  found_in_tenant code db row stored =
      All-find (λ x. x.tenant_id ≡ subject.tenant_id) (by_code tasks.citext_equal code)
        (tasks.rows db subject.tenant_id) row (tasks.rows_scoped db subject.tenant_id) stored

  find_task-ok :
      (code : String) (db : Db) {row : HumanTask}
      → find_task tasks memberships get_policy subject code db ≡ ok row
      → find (by_code tasks.citext_equal code) (tasks.rows db subject.tenant_id) ≡ some row
  find_task-ok code db h =
      or_raise-eq-ok (find (by_code tasks.citext_equal code) (tasks.rows db subject.tenant_id)) _ _
        _ h

  handed_keeps :
      (t : Transition) (action : String) (actor : Uuid) (assignee : Option Uuid) (now : Time)
      (row : HumanTask)
      → ((handed action actor assignee now (moved t actor row)).id ≡ row.id)
        × ((handed action actor assignee now (moved t actor row)).tenant_id ≡ row.tenant_id)
  unfolding handed moved
  handed_keeps t action actor assignee now row = ground arith

  pub plan_task_action-Planned :
      (code action : String) (if_match : Option String) (actor : Uuid) (assignee : Option Uuid)
      (now : Time) (db : Db) (p : Pending HumanTask)
      → plan_task_action tasks memberships get_policy subject code action if_match actor assignee
          now db
        ≡ ok p
      → Planned code action if_match db p
  unfolding plan_task_action
  plan_task_action-Planned code action if_match actor assignee now db p h =
      let (_s, h₁) = >>-eq-ok (ensure_supported action Resource.review) _ h in
      let (expected, header, h₂) = >>=-eq-ok (parse_expected_version if_match) _ h₁ in
      let (row, found, h₃) =
        >>=-eq-ok (find_task tasks memberships get_policy subject code db) _ h₂ in
      let (version, h₄) = >>-eq-ok (require_version row.row_version expected) _ h₃ in
      let (permission, h₅) =
        >>-eq-ok (require_permission get_policy subject Resource.review action (task_board row)) _
          h₄ in
      let (t, planned, answer) =
        >>=-eq-ok (or_raise (plan_task_transition action row.status) _ _ _) _ h₅ in
      let stored = find_task-ok code db found in
      let (s, u, d, named, step, shown) =
        (plan_task_transition_iff action row.status t).0
          (or_raise-eq-ok (plan_task_transition action row.status) _ _ _ planned) in
      let (same_id, same_tenant) = handed_keeps t action actor assignee now row in
      subst (Planned code action if_match db) (ok_inj answer) (record {
        stored = stored;
        own_tenant = found_in_tenant code db row stored;
        header = header ∙ ap ok (require_version-ok row.row_version expected version);
        permitted = require_permission-ok get_policy subject Resource.review action _ permission;
        same_id = same_id;
        same_tenant = same_tenant;
        consistent =
            step-IsConsistent actor assignee now row t action s u d step (ap (λ q. q.status) shown)
              (ap (λ q. q.decision) shown);
      })

  assigned_keeps :
      (assignee actor : Uuid) (now : Time) (row : HumanTask)
      → ((assigned assignee actor now row).id ≡ row.id)
        × ((assigned assignee actor now row).tenant_id ≡ row.tenant_id)
  unfolding assigned
  assigned_keeps assignee actor now row = (refl, refl)

  pub plan_assign-Planned :
      (code : String) (assignee_id : Option Uuid) (if_match : Option String) (actor : Uuid)
      (now : Time) (db : Db) (p : Pending HumanTask)
      → plan_assign tasks memberships get_policy subject code assignee_id if_match actor now db
        ≡ ok p
      → Planned code "assign" if_match db p
  unfolding plan_assign
  plan_assign-Planned code assignee_id if_match actor now db p h =
      let (assignee, named, h₁) = >>=-eq-ok (or_raise assignee_id _ _ _) _ h in
      let (expected, header, h₂) = >>=-eq-ok (parse_expected_version if_match) _ h₁ in
      let (row, found, h₃) =
        >>=-eq-ok (find_task tasks memberships get_policy subject code db) _ h₂ in
      let (member, h₄) =
        >>-eq-ok
          (raise_if
            (not (member_exists (memberships db subject.tenant_id) subject.tenant_id assignee)) _ _
            _)
          _ h₃ in
      let (version, h₅) = >>-eq-ok (require_version row.row_version expected) _ h₄ in
      let (permission, h₆) =
        >>-eq-ok (require_permission get_policy subject Resource.review "assign" (task_board row)) _
          h₅ in
      let (in_play, answer) =
        >>-eq-ok (raise_if (not (contains ("OPEN" ∷ "CLAIMED" ∷ []) row.status)) _ _ _) _ h₆ in
      let open_or_claimed =
        raise_if-eq-ok (not (contains ("OPEN" ∷ "CLAIMED" ∷ []) row.status)) _ _ _ in_play in
      let stored = find_task-ok code db found in
      let (same_id, same_tenant) = assigned_keeps assignee actor now row in
      subst (Planned code "assign" if_match db) (ok_inj answer) (record {
        stored = stored;
        own_tenant = found_in_tenant code db row stored;
        header = header ∙ ap ok (require_version-ok row.row_version expected version);
        permitted = require_permission-ok get_policy subject Resource.review "assign" _ permission;
        same_id = same_id;
        same_tenant = same_tenant;
        consistent = assigned-IsConsistent assignee actor now row (not-false _ open_or_claimed);
      })

  -- Whatever the action, a plan on a human task rests on a task stored in the caller's tenant, on
  -- the version of the header and on the permission for that action, and what it is about to write
  -- is the same task in a consistent state.
  pub plan_any_action-Planned :
      (code action : String) (if_match : Option String) (actor : Uuid) (assignee : Option Uuid)
      (now : Time) (db : Db) (p : Pending HumanTask)
      → plan_any_action tasks memberships get_policy subject code action if_match actor assignee now
          db
        ≡ ok p
      → Planned code action if_match db p
  unfolding plan_any_action
  plan_any_action-Planned code action if_match actor assignee now db p h =
      elim (Bool-cases (action == "assign")) [
        | inl e ↦
            let is_assign = (eq_iff action "assign").0 e in
            subst (λ a. Planned code a if_match db p) (sym is_assign)
              (plan_assign-Planned code assignee if_match actor now db p
                (rw (e, plan_any_action) at h))
        | inr e ↦
            plan_task_action-Planned code action if_match actor assignee now db p
              (rw (e, plan_any_action) at h)
      ]

-- Of two actions of callers of one tenant that are planned on the same human task in the same
-- database and each change it, the second to commit ends in a 409 once the first has committed.
pub second_task_action_conflicts :
    {Db : Type 0} (tasks : Table Db human_task_row)
    (memberships : Db → Uuid → List TenantMembership)
    (policies policies' : TenantContext → Option AuthorizationPolicy) (one other : TenantContext)
    (code action action' : String) (if_match if_match' : Option String) (actor actor' : Uuid)
    (assignee assignee' : Option Uuid) (now now' : Time) (db db' : Db) (p q : Pending HumanTask)
    (summary : HumanTaskSummary)
    → other.tenant_id ≡ one.tenant_id
    → plan_any_action tasks memberships policies one code action if_match actor assignee now db
      ≡ ok p
    → plan_any_action tasks memberships policies' other code action' if_match' actor' assignee' now'
        db
      ≡ ok q
    → p.loaded ≢ p.changed
    → q.loaded ≢ q.changed
    → commit tasks (to_human_task policies one) p db ≡ ok (summary, db')
    → commit tasks (to_human_task policies one) q db' ≡ conflict p.loaded.row_version
second_task_action_conflicts tasks memberships policies policies' one other code action action'
      if_match if_match' actor actor' assignee assignee' now now' db db' p q summary same first
      second real real' done =
    let facts =
      plan_any_action-Planned tasks memberships policies one code action if_match actor assignee now
        db p first in
    let facts' =
      plan_any_action-Planned tasks memberships policies' other code action' if_match' actor'
        assignee' now' db q second in
    let found =
      subst (λ t. find (by_code tasks.citext_equal code) (tasks.rows db t) ≡ some q.loaded) same
        facts'.stored in
    let same_row : q.loaded ≡ p.loaded = cc (found, facts.stored) in
    commit_again tasks (to_human_task policies one) p q db db' summary real facts.same_tenant
      facts.same_id same_row real' done
