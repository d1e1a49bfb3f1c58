-- ===== src/Content/StateMachine/Restarts.antt =====
-- From which statuses actions can set a run going.
use aipy.Prelude.{
  String, refl, sym, ap, subst, inl, inr, List, [], ◌≡◌, ◌≢◌, ◌↔◌, ◌∷◌, Option-cases,
}
use aipy.Content.Status.{ContentStatus, content_value, content_value_inj}
use aipy.Content.StateMachine.{plan_content_transition}
use aipy.Content.StateMachine.ContentSteps.{
  ContentStep, pause, resume, rerun, cancel, plan_content_transition_iff,
}
use aipy.Content.StateMachine.Runs.{after_action, run_actions}

-- The statuses that a run does not leave for RUNNING.
pub data Stuck (status : String) : Type 0 where
  is_draft : status ≡ "DRAFT" → Stuck status
  is_cancelled : status ≡ "CANCELLED" → Stuck status

not-Stuck :
    (s : ContentStatus)
    → s ≢ ContentStatus.draft
    → s ≢ ContentStatus.cancelled
    → ¬ Stuck (content_value s)
not-Stuck s f g (is_draft e) = f (content_value_inj s ContentStatus.draft e)
not-Stuck s f g (is_cancelled e) = g (content_value_inj s ContentStatus.cancelled e)

step-Stuck :
    (a : String) (s t : ContentStatus)
    → ContentStep a s t
    → Stuck (content_value s)
    → Stuck (content_value t)
step-Stuck a s t (pause e (inl from) to) h = absurd (
    not-Stuck ContentStatus.running (λ k. cc k) (λ k. cc k)
      (subst (λ x. Stuck (content_value x)) from h))
step-Stuck a s t (pause e (inr from) to) h = absurd (
    not-Stuck ContentStatus.waiting_human (λ k. cc k) (λ k. cc k)
      (subst (λ x. Stuck (content_value x)) from h))
step-Stuck a s t (resume e from to) h = absurd (
    not-Stuck ContentStatus.paused (λ k. cc k) (λ k. cc k)
      (subst (λ x. Stuck (content_value x)) from h))
step-Stuck a s t (rerun e (inl from) to) h = absurd (
    not-Stuck ContentStatus.failed (λ k. cc k) (λ k. cc k)
      (subst (λ x. Stuck (content_value x)) from h))
step-Stuck a s t (rerun e (inr from) to) h = absurd (
    not-Stuck ContentStatus.completed (λ k. cc k) (λ k. cc k)
      (subst (λ x. Stuck (content_value x)) from h))
step-Stuck a s t (cancel e f g to) h = is_cancelled (ap content_value to)

after_action-Stuck : (status a : String) → Stuck status → Stuck (after_action status a)
unfolding after_action
after_action-Stuck status a h = elim (Option-cases (plan_content_transition a status)) [
  | inl e ↦ rw (e, after_action) h
  | inr (p, e) ↦
      let (s, t, named, step, shown) = (plan_content_transition_iff a status p).0 e in
      rw (e, after_action, shown) (step-Stuck a s t step (subst Stuck (sym named) h))
]

run_actions-Stuck :
    (status : String) (actions : List String) → Stuck status → Stuck (run_actions status actions)
unfolding run_actions
run_actions-Stuck status [] h = h
run_actions-Stuck status (a ∷ actions) h =
    run_actions-Stuck (after_action status a) actions (after_action-Stuck status a h)

-- A sequence of actions that sets the run going.
abbrev pub Restartable : ContentStatus → Type 0
Restartable s = (actions : List String) × (run_actions (content_value s) actions ≡ "RUNNING")

restarts :
    (s : ContentStatus) → s ≢ ContentStatus.draft → s ≢ ContentStatus.cancelled → Restartable s
unfolding run_actions after_action plan_content_transition aipy.Content.Status.content_status
restarts ContentStatus.draft f g = absurd (f refl)
restarts ContentStatus.running f g = ([], refl)
restarts ContentStatus.waiting_human f g = ("pause" ∷ "resume" ∷ [], refl)
restarts ContentStatus.paused f g = ("resume" ∷ [], refl)
restarts ContentStatus.failed f g = ("rerun" ∷ [], refl)
restarts ContentStatus.completed f g = ("rerun" ∷ [], refl)
restarts ContentStatus.cancelled f g = absurd (g refl)

-- Some sequence of actions brings a run to RUNNING exactly if it is neither a draft nor cancelled.
pub restarts_iff :
    (s : ContentStatus)
    → Restartable s ↔ ((s ≢ ContentStatus.draft) × (s ≢ ContentStatus.cancelled))
restarts_iff s = (
  λ h. (
    λ e. stays h (is_draft (ap content_value e)),
    λ e. stays h (is_cancelled (ap content_value e)),
  ),
  λ h. restarts s h.0 h.1,
)
  where
    stays : Restartable s → Stuck (content_value s) → ⊥
    stays (actions, e) h =
        not-Stuck ContentStatus.running (λ k. cc k) (λ k. cc k)
          (subst Stuck e (run_actions-Stuck (content_value s) actions h))
