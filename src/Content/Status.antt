-- ===== src/Content/Status.antt =====
-- The status and decision enumerations of src/aipy/modules/content/state_machine.py.
-- A `StrEnum` member equals its value, so members are compared by their values.
use aipy.Prelude.Options.{some_inj}
use aipy.Prelude.{
  String, refl, sym, ap, subst, true, Option, some, List, [], eq_iff, ◌≡◌, ◌∙◌, ◌↔◌, ◌∷◌, ◌==◌, Eq,
  find, find_holds, string_eq, nat_eq,
}

-- `StrEnum(value)`: the member with that value; a `ValueError` is `none`.
abbrev of_value : {E : Type 0} → (E → String) → List E → String → Option E
of_value value members v = find (λ m. value m == v) members

pub data ContentStatus : Type 0 where
  draft running waiting_human paused failed completed cancelled : ContentStatus

abbrev pub content_value : ContentStatus → String
content_value ContentStatus.draft = "DRAFT"
content_value ContentStatus.running = "RUNNING"
content_value ContentStatus.waiting_human = "WAITING_HUMAN"
content_value ContentStatus.paused = "PAUSED"
content_value ContentStatus.failed = "FAILED"
content_value ContentStatus.completed = "COMPLETED"
content_value ContentStatus.cancelled = "CANCELLED"

abbrev content_members : List ContentStatus
content_members =
    ContentStatus.draft ∷ ContentStatus.running ∷ ContentStatus.waiting_human ∷ ContentStatus.paused
    ∷ ContentStatus.failed ∷ ContentStatus.completed ∷ ContentStatus.cancelled ∷ []

-- `_content_status`
unfoldable pub content_status : String → Option ContentStatus
content_status v = of_value content_value content_members v

pub content_status-value : (s : ContentStatus) → content_status (content_value s) ≡ some s
unfolding content_status
content_status-value ContentStatus.draft = refl
content_status-value ContentStatus.running = refl
content_status-value ContentStatus.waiting_human = refl
content_status-value ContentStatus.paused = refl
content_status-value ContentStatus.failed = refl
content_status-value ContentStatus.completed = refl
content_status-value ContentStatus.cancelled = refl

pub content_status_iff :
    (v : String) (s : ContentStatus) → (content_status v ≡ some s) ↔ (content_value s ≡ v)
unfolding content_status
content_status_iff v s = (
  λ h. (eq_iff (content_value s) v).0 (find_holds (λ m. content_value m == v) content_members s h),
  λ h. subst (λ w. content_status w ≡ some s) h (content_status-value s),
)

pub content_value_inj : (a b : ContentStatus) → content_value a ≡ content_value b → a ≡ b
content_value_inj a b h =
    some_inj (sym (content_status-value a) ∙ ap content_status h ∙ content_status-value b)

pub content_beq_iff :
    (a b : ContentStatus) → ((content_value a == content_value b) ≡ true) ↔ (a ≡ b)
content_beq_iff a b =
    (λ h. content_value_inj a b ((eq_iff _ _).0 h), λ h. (eq_iff _ _).1 (ap content_value h))

instance abbrev pub content_eq : Eq ContentStatus
content_eq = record { beq = λ a b. content_value a == content_value b; beq_iff = content_beq_iff }

pub data TaskStatus : Type 0 where
  opened claimed completed cancelled expired : TaskStatus

abbrev pub task_value : TaskStatus → String
task_value TaskStatus.opened = "OPEN"
task_value TaskStatus.claimed = "CLAIMED"
task_value TaskStatus.completed = "COMPLETED"
task_value TaskStatus.cancelled = "CANCELLED"
task_value TaskStatus.expired = "EXPIRED"

abbrev task_members : List TaskStatus
task_members =
    TaskStatus.opened ∷ TaskStatus.claimed ∷ TaskStatus.completed ∷ TaskStatus.cancelled
    ∷ TaskStatus.expired ∷ []

-- `_task_status`
unfoldable pub task_status : String → Option TaskStatus
task_status v = of_value task_value task_members v

pub task_status-value : (s : TaskStatus) → task_status (task_value s) ≡ some s
unfolding task_status
task_status-value TaskStatus.opened = refl
task_status-value TaskStatus.claimed = refl
task_status-value TaskStatus.completed = refl
task_status-value TaskStatus.cancelled = refl
task_status-value TaskStatus.expired = refl

pub task_status_iff : (v : String) (s : TaskStatus) → (task_status v ≡ some s) ↔ (task_value s ≡ v)
unfolding task_status
task_status_iff v s = (
  λ h. (eq_iff (task_value s) v).0 (find_holds (λ m. task_value m == v) task_members s h),
  λ h. subst (λ w. task_status w ≡ some s) h (task_status-value s),
)

pub task_value_inj : (a b : TaskStatus) → task_value a ≡ task_value b → a ≡ b
task_value_inj a b h = some_inj (sym (task_status-value a) ∙ ap task_status h ∙ task_status-value b)

pub task_beq_iff : (a b : TaskStatus) → ((task_value a == task_value b) ≡ true) ↔ (a ≡ b)
task_beq_iff a b =
    (λ h. task_value_inj a b ((eq_iff _ _).0 h), λ h. (eq_iff _ _).1 (ap task_value h))

instance abbrev pub task_eq : Eq TaskStatus
task_eq = record { beq = λ a b. task_value a == task_value b; beq_iff = task_beq_iff }

pub data TaskDecision : Type 0 where
  approve edit_and_approve reject request_rework skip : TaskDecision

abbrev pub decision_value : TaskDecision → String
decision_value TaskDecision.approve = "APPROVE"
decision_value TaskDecision.edit_and_approve = "EDIT_AND_APPROVE"
decision_value TaskDecision.reject = "REJECT"
decision_value TaskDecision.request_rework = "REQUEST_REWORK"
decision_value TaskDecision.skip = "SKIP"
