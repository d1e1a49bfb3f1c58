-- ===== src/Api/TaskActions/Invariant.antt =====
-- What every action on a human task keeps (apps/api/repositories.py, `apply_human_task_action` and
-- `_apply_assign`).
use mathlib.Core.Option
use aipy.Prelude.{
  String, refl, sym, ap, subst, true, Option, none, [], arith, eq_iff, ◌≡◌, ◌∙◌, ◌≢◌, ◌∷◌, contains,
  string_eq, nat_eq,
}
use aipy.Security.{Uuid}
use aipy.Content.Status.{TaskStatus, TaskDecision, task_value, decision_value}
use aipy.Content.StateMachine.{Transition}
use aipy.Content.StateMachine.TaskSteps.{TaskStep, claim, reassign, submit, approve, reject}
use aipy.Api.Rows.{HumanTask, human_task_row, Time}
use aipy.Api.TaskActions.{moved, handed, assigned}

-- A claimed task has a handler and a lease, a lease has a handler, and a task is completed exactly
-- if it carries a decision, and then without a lease.
pub record IsConsistent (r : HumanTask) : Type 0 where
  pub held : r.status ≡ "CLAIMED" → (r.assignee_id ≢ none) × (r.lease_expires_at ≢ none)
  pub leased : r.lease_expires_at ≢ none → r.assignee_id ≢ none
  pub decided : r.decision ≢ none → r.status ≡ "COMPLETED"
  pub completed : r.status ≡ "COMPLETED" → (r.decision ≢ none) × (r.lease_expires_at ≡ none)

module _ (actor : Uuid) (assignee : Option Uuid) (now : Time) (r : HumanTask) (p : Transition) where
  abbrev pub After : String → Type 0
  After action = IsConsistent (handed action actor assignee now (moved p actor r))

  claim-IsConsistent : p.status ≡ "CLAIMED" → p.decision ≡ none → After "claim"
  unfolding handed moved
  claim-IsConsistent st dec = record {
    held = λ _. (λ e. cc, λ e. cc);
    leased = λ _ e. cc;
    decided = λ f. absurd (f dec);
    completed = ground (arith, eq_iff "CLAIMED" "COMPLETED");
  }

  reassign-IsConsistent : p.status ≡ "OPEN" → p.decision ≡ none → After "reassign"
  unfolding handed moved
  reassign-IsConsistent st dec = record {
    held = ground (arith, eq_iff "OPEN" "CLAIMED");
    leased = ground arith;
    decided = λ f. absurd (f dec);
    completed = ground (arith, eq_iff "OPEN" "COMPLETED");
  }

  -- A decision completes the task and releases it.
  abbrev Closes : String → Type 0
  Closes action =
      (handed action actor assignee now (moved p actor r)
        ≡ record (moved p actor r) { lease_expires_at = none })

  closed-IsConsistent :
      (action : String) → Closes action → p.status ≡ "COMPLETED" → p.decision ≢ none → After action
  unfolding moved
  closed-IsConsistent action closes st dec = subst IsConsistent (sym closes) (record {
    held = ground (arith, eq_iff "COMPLETED" "CLAIMED");
    leased = λ f. absurd (f refl);
    decided = λ _. st;
    completed = λ _. (dec, refl);
  })

  pub step-IsConsistent :
      (action : String) (s t : TaskStatus) (d : Option TaskDecision)
      → TaskStep action s t d
      → p.status ≡ task_value t
      → p.decision ≡ Option.map decision_value d
      → After action
  unfolding handed
  step-IsConsistent action s t d (claim e from to del) st dec =
      rw e (claim-IsConsistent (st ∙ ap task_value to) (dec ∙ ap (Option.map decision_value) del))
  step-IsConsistent action s t d (reassign e from to del) st dec =
      rw e
        (reassign-IsConsistent (st ∙ ap task_value to) (dec ∙ ap (Option.map decision_value) del))
  step-IsConsistent action s t d (submit e from to del) st dec =
      closed-IsConsistent action (rw e) (st ∙ ap task_value to) (λ n. cc)
  step-IsConsistent action s t d (approve e from to del) st dec =
      closed-IsConsistent action (rw e) (st ∙ ap task_value to) (λ n. cc)
  step-IsConsistent action s t d (reject e from to del) st dec =
      closed-IsConsistent action (rw e) (st ∙ ap task_value to) (λ n. cc)

pub assigned-IsConsistent :
    (assignee actor : Uuid) (now : Time) (r : HumanTask)
    → contains ("OPEN" ∷ "CLAIMED" ∷ []) r.status ≡ true
    → IsConsistent (assigned assignee actor now r)
unfolding assigned
assigned-IsConsistent assignee actor now r open_or_claimed = record {
  held = λ _. (λ e. cc, λ e. cc);
  leased = λ _ e. cc;
  decided = λ f. absurd (f refl);
  completed = ground (
    arith,
    eq_iff r.status "OPEN",
    eq_iff r.status "CLAIMED",
    eq_iff "CLAIMED" "COMPLETED",
    eq_iff "OPEN" "COMPLETED",
  );
}
