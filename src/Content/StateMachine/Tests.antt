-- ===== src/Content/StateMachine/Tests.antt =====
-- Runs of the state machines of src/aipy/modules/content/state_machine.py.
use aipy.Prelude.{refl, none, some, [], ◌≡◌, ◌≢◌, ◌↔◌, ◌⊎◌, ◌∷◌}
use aipy.Content.Status.{ContentStatus, TaskStatus, TaskDecision, content_value}
use aipy.Content.StateMachine.{Transition, plan_content_transition, plan_task_transition}
use aipy.Content.StateMachine.ContentSteps.{
  ContentPlan, content_transition_to, plan_content_transition_iff,
}
use aipy.Content.StateMachine.TaskSteps.{
  DocumentedPlan, task_transition_to, plan_task-Documented_iff,
}
use aipy.Content.StateMachine.Restarts.{Restartable, restarts_iff}
use aipy.Content.StateMachine.Runs.{
  Documented, Undocumented, run_actions, plan_content-Documented, after_action,
}

abbrev resumed : Transition
resumed = content_transition_to ContentStatus.running

abbrev approved : Transition
approved = task_transition_to TaskStatus.completed (some TaskDecision.approve)

resume_paused_test : plan_content_transition "resume" "PAUSED" ≡ some resumed
unfolding plan_content_transition aipy.Content.Status.content_status
resume_paused_test = refl

approve_twice_test : plan_task_transition "approve" "COMPLETED" ≡ none
unfolding plan_task_transition aipy.Content.Status.task_status
approve_twice_test = refl

pause_and_resume_test : run_actions "RUNNING" ("pause" ∷ "resume" ∷ []) ≡ "RUNNING"
unfolding run_actions after_action plan_content_transition aipy.Content.Status.content_status
pause_and_resume_test = refl

plan_content_transition_iff_example :
    (plan_content_transition "resume" "PAUSED" ≡ some resumed)
    ↔ ContentPlan "resume" "PAUSED" resumed
plan_content_transition_iff_example = plan_content_transition_iff "resume" "PAUSED" resumed

plan_task-Documented_iff_example :
    (plan_task_transition "approve" "CLAIMED" ≡ some approved)
    ↔ DocumentedPlan "approve" "CLAIMED" approved
plan_task-Documented_iff_example = plan_task-Documented_iff "approve" "CLAIMED" approved

plan_content-Documented_example :
    (t : ContentStatus) × (resumed.status ≡ content_value t)
    × (Documented ContentStatus.paused t ⊎ Undocumented ContentStatus.paused t)
plan_content-Documented_example =
    plan_content-Documented "resume" ContentStatus.paused resumed resume_paused_test

restarts_iff_example : Restartable ContentStatus.failed ↔ (
    (ContentStatus.failed ≢ ContentStatus.draft) × (ContentStatus.failed ≢ ContentStatus.cancelled))
restarts_iff_example = restarts_iff ContentStatus.failed
