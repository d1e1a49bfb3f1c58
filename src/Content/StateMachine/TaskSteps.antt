-- ===== src/Content/StateMachine/TaskSteps.antt =====
-- Human tasks: the steps of TASK_TRANSITIONS of src/aipy/modules/content/state_machine.py as a
-- relation, the table of section 2 of docs/adr/0003-write-actions-and-state.md as another, and
-- `plan_task_transition` against both. The table has submit from OPEN and from CLAIMED, the code from
-- CLAIMED only; the diagram of docs/02-workflow-state-machine.md has no step from OPEN to OPEN, which
-- both have for reassign.
use aipy.Prelude.{
  String, refl, sym, ap, inl, inr, true, false, Option, none, some, arith, eq_iff, ◌≡◌, ◌∙◌, ◌≢◌,
  ◌↔◌, ◌⊎◌, ◌==◌, Option-cases, get, string_eq, nat_eq,
}
use mathlib.Core.Option
use aipy.Prelude.Options.{>>=-eq-some}
use aipy.Content.Status.{
  TaskStatus, TaskDecision, task_value, decision_value, task_status, task_eq, task_status_iff,
}
use aipy.Content.StateMachine.{
  Transition, task_transitions, task_decisions, target_of, task_display, plan_task_transition,
}

abbrev InPlay : TaskStatus → Type 0
InPlay s = (s ≡ TaskStatus.opened) ⊎ (s ≡ TaskStatus.claimed)

-- A step of the code: an action takes a task from the status `s` to the status `t` and records the
-- decision `d`.
pub data TaskStep (action : String) (s t : TaskStatus) (d : Option TaskDecision) : Type 0 where
  claim :
      action ≡ "claim"
      → s ≡ TaskStatus.opened
      → t ≡ TaskStatus.claimed
      → d ≡ none
      → TaskStep action s t d
  reassign :
      action ≡ "reassign" → InPlay s → t ≡ TaskStatus.opened → d ≡ none → TaskStep action s t d
  submit :
      action ≡ "submit"
      → s ≡ TaskStatus.claimed
      → t ≡ TaskStatus.completed
      → d ≡ some TaskDecision.edit_and_approve
      → TaskStep action s t d
  approve :
      action ≡ "approve"
      → InPlay s
      → t ≡ TaskStatus.completed
      → d ≡ some TaskDecision.approve
      → TaskStep action s t d
  reject :
      action ≡ "reject"
      → InPlay s
      → t ≡ TaskStatus.completed
      → d ≡ some TaskDecision.reject
      → TaskStep action s t d

-- A row of human_task in the table of ADR-0003: where an action may start, and where it ends.
pub data TaskRow : String → TaskStatus → TaskStatus → Type 0 where
  claim_row : TaskRow "claim" TaskStatus.opened TaskStatus.claimed
  reassign_opened : TaskRow "reassign" TaskStatus.opened TaskStatus.opened
  reassign_claimed : TaskRow "reassign" TaskStatus.claimed TaskStatus.opened
  submit_opened : TaskRow "submit" TaskStatus.opened TaskStatus.completed
  submit_claimed : TaskRow "submit" TaskStatus.claimed TaskStatus.completed
  approve_opened : TaskRow "approve" TaskStatus.opened TaskStatus.completed
  approve_claimed : TaskRow "approve" TaskStatus.claimed TaskStatus.completed
  reject_opened : TaskRow "reject" TaskStatus.opened TaskStatus.completed
  reject_claimed : TaskRow "reject" TaskStatus.claimed TaskStatus.completed

-- The decision that an action writes.
pub data Records : String → Option TaskDecision → Type 0 where
  edit_and_approve : Records "submit" (some TaskDecision.edit_and_approve)
  approve : Records "approve" (some TaskDecision.approve)
  reject : Records "reject" (some TaskDecision.reject)
  nothing : (action : String) → (action ≡ "claim") ⊎ (action ≡ "reassign") → Records action none

abbrev task_target : TaskStatus → String → Option TaskStatus
task_target s = target_of task_transitions (some s)

task_action-cases :
    (a : String)
    → (a ≡ "claim")
      ⊎ (a ≡ "reassign")
      ⊎ (a ≡ "submit")
      ⊎ (a ≡ "approve")
      ⊎ (a ≡ "reject")
      ⊎ (get task_transitions a ≡ none)
task_action-cases a = ground (
  arith,
  eq_iff "claim" a,
  eq_iff "reassign" a,
  eq_iff "submit" a,
  eq_iff "approve" a,
  eq_iff "reject" a,
)

-- What a target found in the table says, for one action.
abbrev StepsBy : String → TaskStatus → Type 0
StepsBy a s = (t : TaskStatus) → task_target s a ≡ some t → TaskStep a s t (get task_decisions a)

claim_step : (s : TaskStatus) → StepsBy "claim" s
claim_step TaskStatus.opened t h = claim refl refl (cc) refl
claim_step _ t h = cc

reassign_step : (s : TaskStatus) → StepsBy "reassign" s
reassign_step TaskStatus.opened t h = reassign refl (inl refl) (cc) refl
reassign_step TaskStatus.claimed t h = reassign refl (inr refl) (cc) refl
reassign_step _ t h = cc

submit_step : (s : TaskStatus) → StepsBy "submit" s
submit_step TaskStatus.claimed t h = submit refl refl (cc) refl
submit_step _ t h = cc

approve_step : (s : TaskStatus) → StepsBy "approve" s
approve_step TaskStatus.opened t h = approve refl (inl refl) (cc) refl
approve_step TaskStatus.claimed t h = approve refl (inr refl) (cc) refl
approve_step _ t h = cc

reject_step : (s : TaskStatus) → StepsBy "reject" s
reject_step TaskStatus.opened t h = reject refl (inl refl) (cc) refl
reject_step TaskStatus.claimed t h = reject refl (inr refl) (cc) refl
reject_step _ t h = cc

target-step : (a : String) (s : TaskStatus) → StepsBy a s
target-step a s t h = elim (task_action-cases a) [
  | inl e ↦ rw e (claim_step s t (rw e at h))
  | inr (inl e) ↦ rw e (reassign_step s t (rw e at h))
  | inr (inr (inl e)) ↦ rw e (submit_step s t (rw e at h))
  | inr (inr (inr (inl e))) ↦ rw e (approve_step s t (rw e at h))
  | inr (inr (inr (inr (inl e)))) ↦ rw e (reject_step s t (rw e at h))
  | inr (inr (inr (inr (inr e)))) ↦ ground arith
]

target_of-TaskStep :
    (a : String) (s t : TaskStatus) (d : Option TaskDecision)
    → TaskStep a s t d
    → (task_target s a ≡ some t) × (d ≡ get task_decisions a)
target_of-TaskStep a s t d (claim e from to del) = (rw (e, from, to), rw (e, del))
target_of-TaskStep a s t d (reassign e (inl from) to del) = (rw (e, from, to), rw (e, del))
target_of-TaskStep a s t d (reassign e (inr from) to del) = (rw (e, from, to), rw (e, del))
target_of-TaskStep a s t d (submit e from to del) = (rw (e, from, to), rw (e, del))
target_of-TaskStep a s t d (approve e (inl from) to del) = (rw (e, from, to), rw (e, del))
target_of-TaskStep a s t d (approve e (inr from) to del) = (rw (e, from, to), rw (e, del))
target_of-TaskStep a s t d (reject e (inl from) to del) = (rw (e, from, to), rw (e, del))
target_of-TaskStep a s t d (reject e (inr from) to del) = (rw (e, from, to), rw (e, del))

-- The transition that shows the status `t` on the board and records the decision `d`.
abbrev pub task_transition_to : TaskStatus → Option TaskDecision → Transition
task_transition_to t d = record {
  status = task_value t;
  label = (task_display t).0;
  tone = (task_display t).1;
  decision = Option.map decision_value d;
}

-- A step of the code from the status that the column's text names.
abbrev pub TaskPlan : String → String → Transition → Type 0
TaskPlan action current p =
    (s : TaskStatus) × (t : TaskStatus) × (d : Option TaskDecision) × (task_value s ≡ current)
    × TaskStep action s t d
    × (p ≡ task_transition_to t d)

plan_task_sound :
    (action current : String) (p : Transition)
    → plan_task_transition action current ≡ some p
    → TaskPlan action current p
unfolding plan_task_transition
plan_task_sound action current p h = elim (Option-cases (task_status current)) [
  | inl e ↦ ground (arith, e)
  | inr (s, e) ↦
      let (t, found, shown) = >>=-eq-some (task_target s action) _ (rw e at h) in
      (
        s,
        t,
        get task_decisions action,
        (task_status_iff current s).0 e,
        target-step action s t found,
        cc,
      )
]

plan_task_complete :
    (action current : String) (p : Transition)
    → TaskPlan action current p
    → plan_task_transition action current ≡ some p
unfolding plan_task_transition
plan_task_complete action current p (s, t, d, e, step, shown) =
    let (found, recorded) = target_of-TaskStep action s t d step in
    rw (shown, (task_status_iff current s).1 e, found, recorded)

pub plan_task_transition_iff :
    (action current : String) (p : Transition)
    → (plan_task_transition action current ≡ some p) ↔ TaskPlan action current p
plan_task_transition_iff action current p =
    (plan_task_sound action current p, plan_task_complete action current p)

-- A row of the table other than the submission of an open task, from the status that the column's
-- text names.
abbrev pub DocumentedPlan : String → String → Transition → Type 0
DocumentedPlan action current p =
    (s : TaskStatus) × (t : TaskStatus) × (d : Option TaskDecision) × (task_value s ≡ current)
    × TaskRow action s t
    × (¬ ((action ≡ "submit") × (s ≡ TaskStatus.opened)))
    × Records action d
    × (p ≡ task_transition_to t d)

claim_no_submit : (a : String) → a ≡ "claim" → a ≢ "submit"
claim_no_submit a e h = cc

reassign_no_submit : (a : String) → a ≡ "reassign" → a ≢ "submit"
reassign_no_submit a e h = cc

approve_no_submit : (a : String) → a ≡ "approve" → a ≢ "submit"
approve_no_submit a e h = cc

reject_no_submit : (a : String) → a ≡ "reject" → a ≢ "submit"
reject_no_submit a e h = apart (ap (λ s. s == "reject") (sym e ∙ h))
  where
    apart : true ≡ false → ⊥
    apart k = cc

TaskStep-row :
    (action : String) (s t : TaskStatus) (d : Option TaskDecision)
    → TaskStep action s t d
    → TaskRow action s t × (¬ ((action ≡ "submit") × (s ≡ TaskStatus.opened))) × Records action d
TaskStep-row action s t d (claim e from to del) =
    rw (e, from, to, del)
      (claim_row, λ h. claim_no_submit "claim" refl h.0, nothing "claim" (inl refl))
TaskStep-row action s t d (reassign e (inl from) to del) =
    rw (e, from, to, del)
      (reassign_opened, λ h. reassign_no_submit "reassign" refl h.0, nothing "reassign" (inr refl))
TaskStep-row action s t d (reassign e (inr from) to del) =
    rw (e, from, to, del)
      (reassign_claimed, λ h. reassign_no_submit "reassign" refl h.0, nothing "reassign" (inr refl))
TaskStep-row action s t d (submit e from to del) =
    rw (e, from, to, del) (submit_claimed, λ h. cc (h.1), edit_and_approve)
TaskStep-row action s t d (approve e (inl from) to del) =
    rw (e, from, to, del)
      (approve_opened, λ h. approve_no_submit "approve" refl h.0, Records.approve)
TaskStep-row action s t d (approve e (inr from) to del) =
    rw (e, from, to, del)
      (approve_claimed, λ h. approve_no_submit "approve" refl h.0, Records.approve)
TaskStep-row action s t d (reject e (inl from) to del) =
    rw (e, from, to, del) (reject_opened, λ h. reject_no_submit "reject" refl h.0, Records.reject)
TaskStep-row action s t d (reject e (inr from) to del) =
    rw (e, from, to, del) (reject_claimed, λ h. reject_no_submit "reject" refl h.0, Records.reject)

-- The decision of an action is the one of the code.
Records-decision :
    (action : String) (d : Option TaskDecision) → Records action d → d ≡ get task_decisions action
Records-decision action d edit_and_approve = refl
Records-decision action d Records.approve = refl
Records-decision action d Records.reject = refl
Records-decision action d (nothing a (inl e)) = rw e refl
Records-decision action d (nothing a (inr e)) = rw e refl

row-target :
    (action : String) (s t : TaskStatus)
    → TaskRow action s t
    → ¬ ((action ≡ "submit") × (s ≡ TaskStatus.opened))
    → task_target s action ≡ some t
row-target action s t claim_row h = refl
row-target action s t reassign_opened h = refl
row-target action s t reassign_claimed h = refl
row-target action s t submit_opened h = absurd (h (refl, refl))
row-target action s t submit_claimed h = refl
row-target action s t approve_opened h = refl
row-target action s t approve_claimed h = refl
row-target action s t reject_opened h = refl
row-target action s t reject_claimed h = refl

-- The planner of human tasks gives a transition exactly if the table of section 2 of
-- docs/adr/0003-write-actions-and-state.md has a row for the action from the current status, other
-- than the submission of an open task, and then the one with the status, label and tone of the
-- target and with the decision of the action.
pub plan_task-Documented_iff :
    (action current : String) (p : Transition)
    → (plan_task_transition action current ≡ some p) ↔ DocumentedPlan action current p
unfolding plan_task_transition
plan_task-Documented_iff action current p = (
  λ h.
      let (s, t, d, e, step, shown) = plan_task_sound action current p h in
      let (row, others, recorded) = TaskStep-row action s t d step in
      (s, t, d, e, row, others, recorded, shown),
  λ k.
      let (s, t, d, e, row, others, recorded, shown) = k in
      rw
        (
          shown,
          (task_status_iff current s).1 e,
          row-target action s t row others,
          Records-decision action d recorded,
        )
        refl,
)
