-- ===== src/Worker.antt =====
-- apps/worker/tasks.py: the task that a worker runs for a content run. Every helper opens its own
-- transaction and is one step here; what other transactions commit while the gateway works is an
-- argument. The gateway of src/aipy/modules/llm, its selection included, is a parameter that answers
-- with a text or with the name of the exception that it raises.
pub mod Completed
mod Tests
use aipy.Prelude.{
  ℕ, String, Option, none, some, List, [], ◌∷◌, if◌then◌else◌, find, contains, fstring, string_eq,
  nat_eq,
}
use aipy.Prelude.Outcomes.{Outcome, ok, err}
use aipy.Security.{Uuid}
use aipy.Content.StateMachine.{content_status_label}
use aipy.Api.Rows.{ContentRun, content_run_row}
use aipy.Api.Store.{Table}
use aipy.Api.ContentActions.{by_code}

-- `_TERMINAL`
abbrev pub terminal : List String
terminal = "COMPLETED" ∷ "CANCELLED" ∷ []

pub record ModelRequest : Type 0 where
  pub prompt : String
  pub system : Option String
  pub max_tokens : ℕ

-- `_build_request`
abbrev pub build_request : ContentRun → ModelRequest
build_request row = record {
  prompt =
      fstring
        ("请基于品牌「" ∷ row.brand ∷ "」完成《" ∷ row.title ∷ "》的写作，当前阶段：" ∷ row.stage_label ∷ "。" ∷ []);
  system = some "AI 写作助手";
  max_tokens = 1024;
}

-- `_apply_status`
unfoldable pub apply_status : ContentRun → String → ContentRun
apply_status row status = record row {
  status = status;
  status_label = (content_status_label status).0;
  tone = (content_status_label status).1;
  updated_at_label = "刚刚";
}

-- The row as `_set_status` leaves it.
abbrev pub with_status : String → Uuid → ContentRun → ContentRun
with_status status actor row = record (apply_status row status) { updated_by = some actor }

module _ {Db : Type 0} (runs : Table Db content_run_row)
    (complete : ModelRequest → Outcome String String) where
  abbrev pub run_row : String → Uuid → Db → Option ContentRun
  run_row code tenant db = find (by_code runs.citext_equal code) (runs.rows db tenant)

  -- A transaction that changes the row, if there is one; `none` is a `StaleDataError`.
  abbrev pub written : Option (Db × ContentRun) → Option Db
  written none = none
  written (some (db, row)) = some db

  abbrev pub update : (ContentRun → ContentRun) → Option ContentRun → Db → Option Db
  update change none db = some db
  update change (some row) db = written (runs.flush db row (change row))

  -- `_set_status`
  unfoldable pub set_status : String → Uuid → String → Uuid → Db → Option Db
  set_status code tenant status actor db =
      update (with_status status actor) (run_row code tenant db) db

  -- `_load_status`
  abbrev pub load_status : String → Uuid → Db → Option String
  load_status code tenant db = elim (run_row code tenant db) [
    | none ↦ none
    | some row ↦ some row.status
  ]

  -- The end of the task after an exception: its outcome, where `none` is an exception of the task
  -- itself, and the database.
  abbrev reported : String → Db → Option Db → Option String × Db
  reported error db none = (none, db)
  reported error db (some db') = (some (fstring ("failed:" ∷ error ∷ [])), db')

  unfoldable pub fail : String → Uuid → Uuid → String → Db → Option String × Db
  unfolding set_status
  fail code tenant actor error db = reported error db (set_status code tenant "FAILED" actor db)

  -- The status after the text is stored.
  unfoldable pub conclude : String → Uuid → Uuid → Db → Option String × Db
  unfolding set_status fail
  conclude code tenant actor db = elim (set_status code tenant "COMPLETED" actor db) [
    | none ↦ fail code tenant actor "StaleDataError" db
    | some db' ↦ (some "completed", db')
  ]

  -- The two transactions after the gateway has answered.
  unfoldable pub store_result : String → Uuid → Uuid → String → Db → Option String × Db
  unfolding conclude fail
  store_result code tenant actor text db =
      elim (update (λ row. record row { content = some text }) (run_row code tenant db) db) [
        | none ↦ fail code tenant actor "StaleDataError" db
        | some db' ↦ conclude code tenant actor db'
      ]

  -- The body of the `try`; `others` is what other transactions commit while the gateway works.
  unfoldable pub generate : String → Uuid → Uuid → (Db → Db) → Db → Option String × Db
  unfolding store_result fail
  generate code tenant actor others db = elim (run_row code tenant db) [
    | none ↦ (some "not_found", db)
    | some row ↦ elim (complete (build_request row)) [
      | err error ↦ fail code tenant actor error (others db)
      | ok text ↦ store_result code tenant actor text (others db)
    ]
  ]

  abbrev started : String → Uuid → Uuid → (Db → Db) → Db → Option Db → Option String × Db
  started code tenant actor others db none = (none, db)
  started code tenant actor others db (some db') = generate code tenant actor others db'

  unfoldable pub run_content_workflow : String → Uuid → Uuid → (Db → Db) → Db → Option String × Db
  unfolding set_status generate
  run_content_workflow code tenant actor others db = elim (load_status code tenant db) [
    | none ↦ (some "not_found", db)
    | some current ↦
        if contains terminal current
        then (some "skipped_terminal", db)
        else started code tenant actor others db (set_status code tenant "RUNNING" actor db)
  ]
