-- ===== src/Content/StateMachine/Runs.antt =====
-- What sequences of actions do to the status of a content run, and the state diagram of
-- docs/02-workflow-state-machine.md, section 4.2.
use aipy.Prelude.{
  String, refl, sym, ap, subst, inl, inr, none, some, List, [], ◌≡◌, ◌≢◌, ◌⊎◌, ◌∷◌, Option-cases,
}
use aipy.Content.Status.{ContentStatus, content_value, content_value_inj}
use aipy.Content.StateMachine.{Transition, plan_content_transition}
use aipy.Content.StateMachine.ContentSteps.{
  ContentStep, pause, resume, rerun, cancel, plan_content_transition_iff,
}

-- The diagram of section 4.2.
pub data Documented : ContentStatus → ContentStatus → Type 0 where
  start : Documented ContentStatus.draft ContentStatus.running
  wait : Documented ContentStatus.running ContentStatus.waiting_human
  pause_running : Documented ContentStatus.running ContentStatus.paused
  complete : Documented ContentStatus.running ContentStatus.completed
  fail : Documented ContentStatus.running ContentStatus.failed
  cancel_running : Documented ContentStatus.running ContentStatus.cancelled
  go_on : Documented ContentStatus.waiting_human ContentStatus.running
  pause_waiting : Documented ContentStatus.waiting_human ContentStatus.paused
  fail_waiting : Documented ContentStatus.waiting_human ContentStatus.failed
  cancel_waiting : Documented ContentStatus.waiting_human ContentStatus.cancelled
  resume_paused : Documented ContentStatus.paused ContentStatus.running
  cancel_paused : Documented ContentStatus.paused ContentStatus.cancelled
  retry : Documented ContentStatus.failed ContentStatus.running
  cancel_failed : Documented ContentStatus.failed ContentStatus.cancelled

-- The two edges that the table has and the diagram has not.
pub data Undocumented : ContentStatus → ContentStatus → Type 0 where
  rerun_completed : Undocumented ContentStatus.completed ContentStatus.running
  cancel_draft : Undocumented ContentStatus.draft ContentStatus.cancelled

abbrev Edge : ContentStatus → ContentStatus → Type 0
Edge s t = Documented s t ⊎ Undocumented s t

cancel-Edge :
    (s : ContentStatus)
    → s ≢ ContentStatus.completed
    → s ≢ ContentStatus.cancelled
    → Edge s ContentStatus.cancelled
cancel-Edge ContentStatus.draft f g = inr cancel_draft
cancel-Edge ContentStatus.running f g = inl cancel_running
cancel-Edge ContentStatus.waiting_human f g = inl cancel_waiting
cancel-Edge ContentStatus.paused f g = inl cancel_paused
cancel-Edge ContentStatus.failed f g = inl cancel_failed
cancel-Edge ContentStatus.completed f g = absurd (f refl)
cancel-Edge ContentStatus.cancelled f g = absurd (g refl)

step-Edge : (a : String) (s t : ContentStatus) → ContentStep a s t → Edge s t
step-Edge a s t (pause e (inl from) to) = rw (from, to) (inl pause_running)
step-Edge a s t (pause e (inr from) to) = rw (from, to) (inl pause_waiting)
step-Edge a s t (resume e from to) = rw (from, to) (inl resume_paused)
step-Edge a s t (rerun e (inl from) to) = rw (from, to) (inl retry)
step-Edge a s t (rerun e (inr from) to) = rw (from, to) (inr rerun_completed)
step-Edge a s t (cancel e f g to) = rw to (cancel-Edge s f g)

-- Every transition that is planned from a status of the enumeration follows the diagram of the
-- documentation, but for a rerun of a completed run and the cancellation of a draft.
pub plan_content-Documented :
    (action : String) (s : ContentStatus) (p : Transition)
    → plan_content_transition action (content_value s) ≡ some p
    → (t : ContentStatus) × (p.status ≡ content_value t) × (Documented s t ⊎ Undocumented s t)
plan_content-Documented action s p h =
    let (s', t, named, step, shown) =
      (plan_content_transition_iff action (content_value s) p).0 h in
    let same = content_value_inj s' s named in
    (
      t,
      ap (λ q. q.status) shown,
      step-Edge action s t (subst (λ x. ContentStep action x t) same step),
    )

-- An action that is refused leaves the status as it was.
unfoldable pub after_action : String → String → String
after_action status action = elim (plan_content_transition action status) [
  | none ↦ status
  | some p ↦ p.status
]

unfoldable pub run_actions : String → List String → String
run_actions status [] = status
run_actions status (a ∷ actions) = run_actions (after_action status a) actions

-- The statuses that actions lead to.
pub data Settled (status : String) : Type 0 where
  is_running : status ≡ "RUNNING" → Settled status
  is_paused : status ≡ "PAUSED" → Settled status
  is_cancelled : status ≡ "CANCELLED" → Settled status

step-Settled : (a : String) (s t : ContentStatus) → ContentStep a s t → Settled (content_value t)
step-Settled a s t (pause e from to) = is_paused (ap content_value to)
step-Settled a s t (resume e from to) = is_running (ap content_value to)
step-Settled a s t (rerun e from to) = is_running (ap content_value to)
step-Settled a s t (cancel e f g to) = is_cancelled (ap content_value to)

plan-Settled :
    (a status : String) (p : Transition)
    → plan_content_transition a status ≡ some p
    → Settled p.status
plan-Settled a status p h =
    let (s, t, named, step, shown) = (plan_content_transition_iff a status p).0 h in
    rw shown (step-Settled a s t step)

after_action-Settled :
    (status a : String) → (after_action status a ≡ status) ⊎ Settled (after_action status a)
unfolding after_action
after_action-Settled status a = elim (Option-cases (plan_content_transition a status)) [
  | inl e ↦ inl (rw (e, after_action))
  | inr (p, e) ↦ inr (rw (e, after_action) (plan-Settled a status p e))
]

run_actions_from_Settled :
    (status : String) (actions : List String)
    → Settled status
    → Settled (run_actions status actions)
unfolding run_actions
run_actions_from_Settled status [] h = h
run_actions_from_Settled status (a ∷ actions) h =
    run_actions_from_Settled (after_action status a) actions (elim (after_action-Settled status a) [
      | inl same ↦ subst Settled (sym same) h
      | inr settled ↦ settled
    ])

-- No sequence of actions, allowed or refused, brings a run into a status other than the one it had,
-- RUNNING, PAUSED or CANCELLED.
pub run_actions-Settled :
    (status : String) (actions : List String)
    → (run_actions status actions ≡ status) ⊎ Settled (run_actions status actions)
unfolding run_actions
run_actions-Settled status [] = inl refl
run_actions-Settled status (a ∷ actions) = elim (after_action-Settled status a) [
  | inl same ↦ rw same (run_actions-Settled status actions)
  | inr settled ↦ inr (run_actions_from_Settled (after_action status a) actions settled)
]

pub cancelled_stays : (a : String) → plan_content_transition a "CANCELLED" ≡ none
cancelled_stays a = elim (Option-cases (plan_content_transition a "CANCELLED")) [
  | inl e ↦ e
  | inr (p, e) ↦
      let (t, shown, edge) = plan_content-Documented a ContentStatus.cancelled p e in
      absurd (no_edge t edge)
]
  where
    no_edge : (t : ContentStatus) → Edge ContentStatus.cancelled t → ⊥
    no_edge t (inl e) = elim e [ ]
    no_edge t (inr e) = elim e [ ]

-- A cancelled run stays cancelled under every sequence of actions.
pub run_actions-cancelled : (actions : List String) → run_actions "CANCELLED" actions ≡ "CANCELLED"
unfolding run_actions after_action
run_actions-cancelled [] = refl
run_actions-cancelled (a ∷ actions) =
    rw (cancelled_stays a, after_action) (run_actions-cancelled actions)
