-- ===== src/Content/StateMachine/ContentSteps.antt =====
-- Content runs: the table of section 2 of docs/adr/0003-write-actions-and-state.md as a relation, and
-- `plan_content_transition` of src/aipy/modules/content/state_machine.py against it. The diagram in
-- section 4.2 of docs/02-workflow-state-machine.md has neither the rerun of a completed run nor the
-- cancellation of a draft.
use aipy.Prelude.{
  String, refl, inl, inr, Option, none, some, arith, eq_iff, ◌≡◌, ◌∙◌, ◌≢◌, ◌↔◌, ◌⊎◌, Option-cases,
  get, string_eq, nat_eq,
}
use aipy.Prelude.Options.{>>=-eq-some}
use aipy.Content.Status.{ContentStatus, content_eq, task_eq, content_status_iff}
use aipy.Content.StateMachine.{
  content_transitions, target_of, plan_content_transition, Transition, content_value,
  content_status, content_display,
}

-- A row of content_run in the table: an action takes a run from the status `s` to the status `t`.
pub data ContentStep (action : String) (s t : ContentStatus) : Type 0 where
  pause :
      action ≡ "pause"
      → (s ≡ ContentStatus.running) ⊎ (s ≡ ContentStatus.waiting_human)
      → t ≡ ContentStatus.paused
      → ContentStep action s t
  resume :
      action ≡ "resume"
      → s ≡ ContentStatus.paused
      → t ≡ ContentStatus.running
      → ContentStep action s t
  rerun :
      action ≡ "rerun"
      → (s ≡ ContentStatus.failed) ⊎ (s ≡ ContentStatus.completed)
      → t ≡ ContentStatus.running
      → ContentStep action s t
  cancel :
      action ≡ "cancel"
      → s ≢ ContentStatus.completed
      → s ≢ ContentStatus.cancelled
      → t ≡ ContentStatus.cancelled
      → ContentStep action s t

abbrev content_target : ContentStatus → String → Option ContentStatus
content_target s = target_of content_transitions (some s)

content_action-cases :
    (a : String)
    → (a ≡ "pause")
      ⊎ (a ≡ "resume")
      ⊎ (a ≡ "rerun")
      ⊎ (a ≡ "cancel")
      ⊎ (get content_transitions a ≡ none)
content_action-cases a =
    ground (arith, eq_iff "pause" a, eq_iff "resume" a, eq_iff "rerun" a, eq_iff "cancel" a)

pause_step :
    (s : ContentStatus) {t : ContentStatus}
    → content_target s "pause" ≡ some t
    → ContentStep "pause" s t
pause_step ContentStatus.running h = pause refl (inl refl) cc
pause_step ContentStatus.waiting_human h = pause refl (inr refl) cc
pause_step _ h = cc

resume_step :
    (s : ContentStatus) {t : ContentStatus}
    → content_target s "resume" ≡ some t
    → ContentStep "resume" s t
resume_step ContentStatus.paused h = resume refl refl cc
resume_step _ h = cc

rerun_step :
    (s : ContentStatus) {t : ContentStatus}
    → content_target s "rerun" ≡ some t
    → ContentStep "rerun" s t
rerun_step ContentStatus.failed h = rerun refl (inl refl) cc
rerun_step ContentStatus.completed h = rerun refl (inr refl) cc
rerun_step _ h = cc

cancel_step :
    (s : ContentStatus) {t : ContentStatus}
    → content_target s "cancel" ≡ some t
    → ContentStep "cancel" s t
cancel_step ContentStatus.completed h = cc
cancel_step ContentStatus.cancelled h = cc
cancel_step _ h = cancel refl (λ e. cc) (λ e. cc) cc

target-step :
    (a : String) (s : ContentStatus) {t : ContentStatus}
    → content_target s a ≡ some t
    → ContentStep a s t
target-step a s {t} h = elim (content_action-cases a) [
  | inl e ↦ rw e (pause_step s (rw e at h))
  | inr (inl e) ↦ rw e (resume_step s (rw e at h))
  | inr (inr (inl e)) ↦ rw e (rerun_step s (rw e at h))
  | inr (inr (inr (inl e))) ↦ rw e (cancel_step s (rw e at h))
  | inr (inr (inr (inr e))) ↦ ground arith
]

target_of-ContentStep :
    (a : String) (s t : ContentStatus) → ContentStep a s t → content_target s a ≡ some t
target_of-ContentStep a s t (pause e (inl from) to) = rw (e, from, to)
target_of-ContentStep a s t (pause e (inr from) to) = rw (e, from, to)
target_of-ContentStep a s t (resume e from to) = rw (e, from, to)
target_of-ContentStep a s t (rerun e (inl from) to) = rw (e, from, to)
target_of-ContentStep a s t (rerun e (inr from) to) = rw (e, from, to)
target_of-ContentStep a ContentStatus.completed t (cancel e f g to) = absurd (f refl)
target_of-ContentStep a ContentStatus.cancelled t (cancel e f g to) = absurd (g refl)
target_of-ContentStep a _ t (cancel e f g to) = rw (e, to)

-- The transition that shows the status `t` on the board.
abbrev pub content_transition_to : ContentStatus → Transition
content_transition_to t = record {
  status = content_value t;
  label = (content_display t).0;
  tone = (content_display t).1;
  decision = none;
}

-- What `plan_content_transition` answers: exactly the steps of the table, from the status that the
-- column's text names, with the label and the tone of the status that is reached.
abbrev pub ContentPlan : String → String → Transition → Type 0
ContentPlan action current p =
    (s : ContentStatus) × (t : ContentStatus) × (content_value s ≡ current)
    × ContentStep action s t
    × (p ≡ content_transition_to t)

plan_content_sound :
    (action current : String) (p : Transition)
    → plan_content_transition action current ≡ some p
    → ContentPlan action current p
unfolding plan_content_transition
plan_content_sound action current p h = elim (Option-cases (content_status current)) [
  | inl e ↦ ground (arith, e)
  | inr (s, e) ↦
      let (t, found, shown) = >>=-eq-some (content_target s action) _ (rw e at h) in
      (s, t, (content_status_iff current s).0 e, target-step action s found, cc)
]

plan_content_complete :
    (action current : String) (p : Transition)
    → ContentPlan action current p
    → plan_content_transition action current ≡ some p
unfolding plan_content_transition
plan_content_complete action current p (s, t, e, step, shown) =
    rw (shown, (content_status_iff current s).1 e, target_of-ContentStep action s t step)

-- The planner of content runs gives a transition exactly if the table of section 2 of
-- docs/adr/0003-write-actions-and-state.md has a step from the current status by that action, and
-- then the one with the status, label and tone of the target. The diagram of
-- docs/02-workflow-state-machine.md has neither the rerun of a completed run nor the cancellation
-- of a draft.
pub plan_content_transition_iff :
    (action current : String) (p : Transition)
    → (plan_content_transition action current ≡ some p) ↔ ContentPlan action current p
plan_content_transition_iff action current p =
    (plan_content_sound action current p, plan_content_complete action current p)

-- No action leads from a status to itself.
pub ContentStep-changes : (a : String) (s t : ContentStatus) → ContentStep a s t → s ≢ t
ContentStep-changes a s t (pause e (inl from) to) same = cc
ContentStep-changes a s t (pause e (inr from) to) same = cc
ContentStep-changes a s t (resume e from to) same = cc
ContentStep-changes a s t (rerun e (inl from) to) same = cc
ContentStep-changes a s t (rerun e (inr from) to) same = cc
ContentStep-changes a s t (cancel e f g to) same = g (same ∙ to)
