-- ===== src/Worker/Completed.antt =====
-- What the outcome of the worker's task says of the stored run (apps/worker/tasks.py).
use aipy.Prelude.{
  String, refl, sym, ap, subst, inl, inr, Bool, Option, none, some, List, [], arith, eq_iff, ◌≡◌,
  ◌∙◌, ◌≢◌, ◌∷◌, Bool-cases, Option-cases, find, All-find, Any, Any-map, In, contains_iff,
  string_eq, nat_eq,
}
use aipy.Prelude.Outcomes.{Outcome}
use aipy.Security.{Uuid}
use aipy.Api.Rows.{ContentRun, content_run_row}
use aipy.Api.Store.{Table}
use aipy.Api.Store.Memory.{content_run_discrete}
use aipy.Worker.{
  ModelRequest, with_status, apply_status, run_row, written, set_status, fail, conclude,
  run_content_workflow, terminal,
}

find-In :
    (p : ContentRun → Bool) (rows : List ContentRun) (r : ContentRun)
    → find p rows ≡ some r
    → In r rows
find-In p [] r h = cc
find-In p (x ∷ rows) r h = elim (Bool-cases (p x)) [
  | inl hit ↦ inl (sym (ground (arith, hit, h)))
  | inr miss ↦ inr (find-In p rows r (ground (arith, miss, h)))
]

module _ {Db : Type 0} (runs : Table Db content_run_row)
    (complete : ModelRequest → Outcome String String) where
  -- The run `row` is stored with the status.
  abbrev pub StoredAs : String → Uuid → ContentRun → Db → Type 0
  StoredAs status tenant row db =
      Any (λ (r : ContentRun). (r.id ≡ row.id) × (r.status ≡ status)) (runs.rows db tenant)

  written-some :
      (o : Option (Db × ContentRun)) (db : Db)
      → written runs complete o ≡ some db
      → (r : ContentRun) × (o ≡ some (db, r))
  written-some none db h = cc
  written-some (some (db', r)) db h = (r, cc)

  set_status-StoredAs :
      (code : String) (tenant : Uuid) (status : String) (actor : Uuid) (db db' : Db)
      (row : ContentRun)
      → run_row runs complete code tenant db ≡ some row
      → row.tenant_id ≡ tenant
      → set_status runs complete code tenant status actor db ≡ some db'
      → StoredAs status tenant row db'
  unfolding set_status apply_status
  set_status-StoredAs code tenant status actor db db' row there own h =
      let (r, flushed) =
        written-some (runs.flush db row (with_status status actor row)) db' (rw there at h) in
      elim (content_run_discrete row (with_status status actor row)) [
        | yes same ↦
            let unchanged : runs.flush db row (with_status status actor row) ≡ some (db, row) =
              subst (λ x. runs.flush db row x ≡ some (db, row)) same (runs.flush_same db row) in
            let same_db : db ≡ db' = cc (unchanged, flushed) in
            let set = ap (λ (x : ContentRun). x.status) same in
            Any-map (runs.rows db' tenant)
              (λ x e. (
                ap (λ (y : ContentRun). y.id) (sym e),
                ap (λ (y : ContentRun). y.status) (sym e) ∙ set,
              ))
              (subst (λ d. In row (runs.rows d tenant)) same_db
                (find-In _ (runs.rows db tenant) row there))
        | no changed ↦
            let (is_bumped, current, kept) = runs.flush_current db db' row _ r changed flushed in
            let stored = subst (λ t. In r (runs.rows db' t)) own (kept refl) in
            Any-map (runs.rows db' tenant)
              (λ x e. (
                ap (λ (y : ContentRun). y.id) (sym e ∙ is_bumped),
                ap (λ (y : ContentRun). y.status) (sym e ∙ is_bumped),
              ))
              stored
      ]

  -- A task for a run that is completed or cancelled when it starts leaves the database as it is,
  -- whatever the gateway and other transactions do.
  pub finished_is_skipped :
      (code : String) (tenant actor : Uuid) (others : Db → Db) (db : Db) (row : ContentRun)
      → run_row runs complete code tenant db ≡ some row
      → In row.status terminal
      → run_content_workflow runs complete code tenant actor others db
        ≡ (some "skipped_terminal", db)
  unfolding run_content_workflow
  finished_is_skipped code tenant actor others db row there finished =
      let stop = (contains_iff terminal row.status).1 finished in
      rw (there, run_content_workflow) (rw stop refl)

  failed_is_not_completed :
      (code : String) (tenant actor : Uuid) (db db' : Db)
      → fail runs complete code tenant actor "StaleDataError" db ≢ (some "completed", db')
  unfolding fail
  failed_is_not_completed code tenant actor db db' h =
      elim (Option-cases (set_status runs complete code tenant "FAILED" actor db)) [
        | inl e ↦ let raised = rw (e, fail) at h in cc (ap (λ x. x.0) raised)
        | inr (d, e) ↦
            let answered = ap (λ x. x.0) (rw (e, fail) at h) in
            let same : ◌≡◌ {A = String} "failed:StaleDataError" "completed" = cc answered in
            ground (arith, eq_iff "failed:StaleDataError" "completed", same)
      ]

  -- When the worker's last step finds the run and the task answers that it is completed, that run
  -- is stored as COMPLETED, whatever status it had by then.
  pub conclude_completes :
      (code : String) (tenant actor : Uuid) (db db' : Db) (row : ContentRun)
      → run_row runs complete code tenant db ≡ some row
      → conclude runs complete code tenant actor db ≡ (some "completed", db')
      → StoredAs "COMPLETED" tenant row db'
  unfolding conclude
  conclude_completes code tenant actor db db' row there h =
      let own =
        All-find (λ (r : ContentRun). r.tenant_id ≡ tenant) _ (runs.rows db tenant) row
          (runs.rows_scoped db tenant) there in
      elim (Option-cases (set_status runs complete code tenant "COMPLETED" actor db)) [
        | inl e ↦ absurd (failed_is_not_completed code tenant actor db db' (rw (e, conclude) at h))
        | inr (d, e) ↦
            let same : d ≡ db' = ap (λ x. x.1) (rw (e, conclude) at h) in
            set_status-StoredAs code tenant "COMPLETED" actor db db' row there own
              (e ∙ ap some same)
      ]
