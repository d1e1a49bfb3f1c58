-- ===== src/Api/Listings/Counts.antt =====
-- The totals of the boards: apps/api/repositories.py.
use aipy.Prelude.{
  ℕ, String, refl, sym, subst, inl, inr, Bool, true, not, List, [], arith, eq_iff, ◌+◌, ◌≤◌, ◌≡◌,
  ◌&&◌, ◌∷◌, ◌==◌, if◌then◌else◌, holds, Bool-cases, contains, string_eq, nat_eq,
}
use aipy.Security.{Uuid}
use aipy.Api.Rows.{ContentRun, HumanTask}
use aipy.Api.Listings.{
  count, content_run_counts, human_task_counts, with_status, still_open, closed_task_statuses,
}

abbrev bit : Bool → ℕ
bit b = if b then 1 else 0

abbrev pub other_status : String → Bool
other_status s =
    not (contains ("RUNNING" ∷ "WAITING_HUMAN" ∷ "PAUSED" ∷ "FAILED" ∷ "COMPLETED" ∷ []) s)

-- A text that passes a test for equality may be replaced.
at_text : (P : String → Type 0) (s key : String) → (s == key) ≡ true → P key → P s
at_text P s key hit p = subst P (sym ((eq_iff s key).0 hit)) p

abbrev OneStatus : String → Type 0
OneStatus s =
    bit (s == "RUNNING")
      + bit (s == "WAITING_HUMAN")
      + bit (s == "PAUSED")
      + bit (s == "FAILED")
      + bit (s == "COMPLETED")
      + bit (other_status s)
    ≡ 1

one_status : (s : String) → OneStatus s
one_status s = elim (Bool-cases (s == "RUNNING")) [
  | inl hit ↦ at_text OneStatus s "RUNNING" hit refl
  | inr a ↦ elim (Bool-cases (s == "WAITING_HUMAN")) [
    | inl hit ↦ at_text OneStatus s "WAITING_HUMAN" hit refl
    | inr b ↦ elim (Bool-cases (s == "PAUSED")) [
      | inl hit ↦ at_text OneStatus s "PAUSED" hit refl
      | inr c ↦ elim (Bool-cases (s == "FAILED")) [
        | inl hit ↦ at_text OneStatus s "FAILED" hit refl
        | inr d ↦ elim (Bool-cases (s == "COMPLETED")) [
          | inl hit ↦ at_text OneStatus s "COMPLETED" hit refl
          | inr e ↦ rw (a, b, c, d, e) refl
        ]
      ]
    ]
  ]
]

abbrev open_bit : String → ℕ
open_bit s = bit (not (contains closed_task_statuses s))

abbrev TaskBits : String → Type 0
TaskBits s =
    (open_bit s + bit (s == "COMPLETED") + bit (s == "CANCELLED") ≡ 1)
    × (bit (s == "OPEN") ≤ open_bit s)

bit-le-one : (b : Bool) → bit b ≤ 1
bit-le-one b = ground arith

task_status_bits : (s : String) → TaskBits s
task_status_bits s = elim (Bool-cases (s == "COMPLETED")) [
  | inl hit ↦ at_text TaskBits s "COMPLETED" hit (refl, omega arith)
  | inr a ↦ elim (Bool-cases (s == "CANCELLED")) [
    | inl hit ↦ at_text TaskBits s "CANCELLED" hit (refl, omega arith)
    | inr b ↦ rw (a, b) (refl, bit-le-one (s == "OPEN"))
  ]
]

mine_bit : (mine later : Bool) → bit (mine && later) ≤ bit later
mine_bit mine later = ground arith

runs_add_up :
    (runs : List ContentRun)
    → count (with_status "RUNNING") runs
        + count (with_status "WAITING_HUMAN") runs
        + count (with_status "PAUSED") runs
        + count (with_status "FAILED") runs
        + count (with_status "COMPLETED") runs
        + count (λ (r : ContentRun). other_status r.status) runs
      ≡ count (λ r. true) runs
runs_add_up [] = refl
runs_add_up (r ∷ runs) = omega (arith, one_status r.status, runs_add_up runs)

tasks_add_up :
    (actor : Uuid) (tasks : List HumanTask)
    → (count still_open tasks
          + count (λ (t : HumanTask). t.status == "COMPLETED") tasks
          + count (λ (t : HumanTask). t.status == "CANCELLED") tasks
        ≡ count (λ t. true) tasks)
      × (count (λ (t : HumanTask). holds t.assignee_id actor && still_open t) tasks
          ≤ count still_open tasks)
      × (count (λ (t : HumanTask). t.status == "OPEN") tasks ≤ count still_open tasks)
tasks_add_up actor [] = (refl, omega arith, omega arith)
tasks_add_up actor (t ∷ tasks) =
    let (a, b, c) = tasks_add_up actor tasks in
    let (d, f) = task_status_bits t.status in
    let e = mine_bit (holds t.assignee_id actor) (still_open t) in
    (omega (arith, a, d), omega (arith, b, e), omega (arith, c, f))

-- The counts of runs by status, with the runs in none of the five statuses, add up to the total;
-- the pending, completed and cancelled tasks add up to all tasks; and neither the open tasks nor
-- those of the caller are more than the pending ones.
pub counts_add_up :
    (runs : List ContentRun) (actor : Uuid) (tasks : List HumanTask)
    → (let c = content_run_counts runs in
        c.running
          + c.waiting_human
          + c.paused
          + c.failed
          + c.completed
          + count (λ (r : ContentRun). other_status r.status) runs
        ≡ c.total)
      × (let c = human_task_counts actor tasks in
          (c.pending + c.completed + count (λ (t : HumanTask). t.status == "CANCELLED") tasks
            ≡ c.team)
          × (c.mine ≤ c.pending)
          × (c.open_tasks ≤ c.pending))
unfolding content_run_counts human_task_counts
counts_add_up runs actor tasks = (runs_add_up runs, tasks_add_up actor tasks)
