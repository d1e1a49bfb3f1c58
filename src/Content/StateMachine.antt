-- ===== src/Content/StateMachine.antt =====
-- The transition tables and the planning functions of
-- src/aipy/modules/content/state_machine.py. Statuses arrive as the texts of the `status` column.
pub mod ContentSteps
pub mod TaskSteps
pub mod Runs
pub mod Restarts
mod Tests
use aipy.Prelude.{String, Option, none, some, List, [], ◌∷◌, Eq, contains, get, string_eq, nat_eq}
use aipy.Prelude.Options.{◌>>=◌, ◌>>◌, require}
use mathlib.Core.Option
use aipy.Content.Status.{
  ContentStatus, TaskStatus, TaskDecision, content_value, task_value, decision_value,
  content_status, task_status, content_eq, task_eq,
}

-- action -> (states it may start from, resulting state)
abbrev pub Transitions : Type 0 → Type 0
Transitions S = List (String × (List S × S))

abbrev pub content_transitions : Transitions ContentStatus
content_transitions =
    ("pause", (ContentStatus.running ∷ ContentStatus.waiting_human ∷ [], ContentStatus.paused))
    ∷ ("resume", (ContentStatus.paused ∷ [], ContentStatus.running))
    ∷ ("rerun", (ContentStatus.failed ∷ ContentStatus.completed ∷ [], ContentStatus.running))
    ∷ (
      "cancel",
      (
        ContentStatus.draft ∷ ContentStatus.running ∷ ContentStatus.waiting_human
            ∷ ContentStatus.paused ∷ ContentStatus.failed ∷ [],
        ContentStatus.cancelled,
      ),
    )
    ∷ []

abbrev pub task_transitions : Transitions TaskStatus
task_transitions =
    ("claim", (TaskStatus.opened ∷ [], TaskStatus.claimed))
    ∷ ("reassign", (TaskStatus.opened ∷ TaskStatus.claimed ∷ [], TaskStatus.opened))
    ∷ ("submit", (TaskStatus.claimed ∷ [], TaskStatus.completed))
    ∷ ("approve", (TaskStatus.opened ∷ TaskStatus.claimed ∷ [], TaskStatus.completed))
    ∷ ("reject", (TaskStatus.opened ∷ TaskStatus.claimed ∷ [], TaskStatus.completed))
    ∷ []

abbrev pub task_decisions : List (String × TaskDecision)
task_decisions =
    ("approve", TaskDecision.approve)
    ∷ ("submit", TaskDecision.edit_and_approve)
    ∷ ("reject", TaskDecision.reject)
    ∷ []

abbrev pub content_display : ContentStatus → String × String
content_display ContentStatus.draft = ("草稿", "neutral")
content_display ContentStatus.running = ("运行中", "info")
content_display ContentStatus.waiting_human = ("等待人工", "warning")
content_display ContentStatus.paused = ("已暂停", "warning")
content_display ContentStatus.failed = ("需要处理", "danger")
content_display ContentStatus.completed = ("已完成", "success")
content_display ContentStatus.cancelled = ("已取消", "neutral")

abbrev pub task_display : TaskStatus → String × String
task_display TaskStatus.opened = ("待领取", "warning")
task_display TaskStatus.claimed = ("处理中", "info")
task_display TaskStatus.completed = ("已处理", "success")
task_display TaskStatus.cancelled = ("已撤销", "neutral")
task_display TaskStatus.expired = ("已超时", "danger")

pub record Transition : Type 0 where
  pub status : String
  pub label : String
  pub tone : String
  pub decision : Option String

-- The lookups and the guard that the two planning functions share.
abbrev pub target_of : {S : Type 0} ⦃e : Eq S⦄ → Transitions S → Option S → String → Option S
target_of table status action = do
  transition ← get table action
  current ← status
  require (contains transition.0 current)
  some transition.1

unfoldable pub plan_content_transition : String → String → Option Transition
plan_content_transition action current_status = do
  target ← target_of content_transitions (content_status current_status) action
  let shown = content_display target
  some (record { status = content_value target; label = shown.0; tone = shown.1; decision = none })

unfoldable pub plan_task_transition : String → String → Option Transition
plan_task_transition action current_status = do
  target ← target_of task_transitions (task_status current_status) action
  let shown = task_display target
  some (record {
    status = task_value target;
    label = shown.0;
    tone = shown.1;
    decision = Option.map decision_value (get task_decisions action);
  })

unfoldable pub content_status_label : String → String × String
content_status_label status = elim (content_status status) [
  | none ↦ (status, "neutral")
  | some resolved ↦ content_display resolved
]

unfoldable pub task_status_label : String → String
task_status_label status = elim (task_status status) [
  | none ↦ status
  | some resolved ↦ (task_display resolved).0
]
