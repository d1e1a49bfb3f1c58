-- ===== src/Api/Listings.antt =====
-- The lists, single rows and counts of the boards: apps/api/repositories.py. Each function gets the
-- rows that the session of the tenant sees. The routes ask for pages from 1 on. `ilike` is
-- `ILIKE … ESCAPE '\'`, and `upper` is `str.upper`.
pub mod Filters
pub mod Pages
pub mod Counts
mod Tests
use aipy.Prelude.{
  ℕ, String, Bool, true, not, Option, none, some, List, [], map, ◌+◌, ◌-◌, ◌*◌, ◌&&◌, ◌||◌, ◌∷◌,
  ◌==◌, if◌then◌else◌, holds, keep, find, contains, is_blank, fstring, strip, string_eq, nat_eq,
}
use aipy.Prelude.Sorting.{limit, offset}
use aipy.Security.{Uuid, TenantContext}
use aipy.Authorization.Policy.{AuthorizationPolicy}
use aipy.Api.Rows.{ContentRun, HumanTask, Material}
use aipy.Api.Boards.{ContentRunSummary, HumanTaskSummary, to_content_run, to_human_task}
use aipy.Api.SideEffects.{escape_like}
use aipy.Api.Uploads.{MaterialSummary, to_material}

pub record Page (A : Type 0) : Type 0 where
  pub items : List A
  pub page : ℕ
  pub page_size : ℕ
  pub total : ℕ

-- `select(func.count()).where(…)`
abbrev pub count : {A : Type 0} → (A → Bool) → List A → ℕ
count test [] = 0
count test (row ∷ rows) = (if test row then 1 else 0) + count test rows

-- The two statements of a list: the page of the rows that fit, and their number. `order` is what this
-- statement's `ORDER BY seq` makes of them: rows with the same `seq` come in an order of its own.
unfoldable pub listing :
    {A B : Type 0} → (List A → List A) → (A → Bool) → (A → B) → ℕ → ℕ → List A → Page B
listing order test show page page_size rows = record {
  items = map show (limit page_size (offset ((page - 1) * page_size) (order (keep test rows))));
  page = page;
  page_size = page_size;
  total = count test rows;
}

-- `if text and text.strip()`, and an absent filter.
abbrev pub stripped : Option String → Option String
stripped none = none
stripped (some text) = if is_blank (strip text) then none else some (strip text)

abbrev pub unless : {A : Type 0} → Option A → (A → Bool) → Bool
unless none test = true
unless (some a) test = test a

abbrev pub nonempty : Option String → Option String
nonempty none = none
nonempty (some text) = if is_blank text then none else some text

module _ (ilike : String → String → Bool) (upper : String → String) where
  -- `or_(a.ilike(pattern), b.ilike(pattern), c.ilike(pattern))`
  abbrev pub searched : String → String → String → String → Bool
  searched a b c query =
      let pattern = fstring ("%" ∷ escape_like query ∷ "%" ∷ []) in
      ilike a pattern || (ilike b pattern || ilike c pattern)

  abbrev pub run_listed : Option String → Option String → ContentRun → Bool
  run_listed query status r =
      unless (stripped query) (searched r.title r.brand r.code)
      && unless (nonempty status) (λ s. r.status == upper s)

  abbrev pub task_listed : Option String → Option String → Option Uuid → HumanTask → Bool
  task_listed query status assignee r =
      unless (stripped query) (searched r.title r.brand r.code)
      && (unless (nonempty status) (λ s. r.status == upper s)
          && unless assignee (λ a. holds r.assignee_id a))

  abbrev pub material_listed : Option String → Option String → Material → Bool
  material_listed query type r =
      unless (stripped query) (searched r.title r.source r.summary)
      && unless (stripped type) (λ t. r.type == t)

  module _ (get_policy : TenantContext → Option AuthorizationPolicy) (subject : TenantContext) where
    unfoldable pub list_content_runs :
        (List ContentRun → List ContentRun)
        → ℕ
        → ℕ
        → Option String
        → Option String
        → List ContentRun
        → Page ContentRunSummary
    unfolding listing
    list_content_runs order page page_size query status rows =
        listing order (run_listed query status) (to_content_run get_policy subject) page page_size
          rows

    unfoldable pub list_human_tasks :
        (List HumanTask → List HumanTask)
        → ℕ
        → ℕ
        → Option String
        → Option String
        → Option Uuid
        → List HumanTask
        → Page HumanTaskSummary
    unfolding listing
    list_human_tasks order page page_size query status assignee rows =
        listing order (task_listed query status assignee) (to_human_task get_policy subject) page
          page_size rows

    unfoldable pub list_materials :
        (List Material → List Material)
        → ℕ
        → ℕ
        → Option String
        → Option String
        → List Material
        → Page MaterialSummary
    unfolding listing
    list_materials order page page_size query type rows =
        listing order (material_listed query type) (to_material get_policy subject) page page_size
          rows

-- `if row is None: return None`
abbrev pub shown : {A B : Type 0} → (A → B) → Option A → Option B
shown show none = none
shown show (some row) = some (show row)

pub record ContentRunDetail : Type 0 where
  pub summary : ContentRunSummary
  pub content : Option String

module _ (citext_equal : String → String → Bool)
    (get_policy : TenantContext → Option AuthorizationPolicy) (subject : TenantContext) where
  unfoldable pub get_content_run : String → List ContentRun → Option ContentRunSummary
  get_content_run code rows =
      shown (to_content_run get_policy subject)
        (find (λ (r : ContentRun). citext_equal r.code code) rows)

  unfoldable pub get_content_run_detail : String → List ContentRun → Option ContentRunDetail
  get_content_run_detail code rows =
      shown
        (λ (r : ContentRun). record {
          summary = to_content_run get_policy subject r;
          content = r.content;
        })
        (find (λ (r : ContentRun). citext_equal r.code code) rows)

  unfoldable pub get_human_task : String → List HumanTask → Option HumanTaskSummary
  get_human_task code rows =
      shown (to_human_task get_policy subject)
        (find (λ (r : HumanTask). citext_equal r.code code) rows)

  unfoldable pub get_material : String → List Material → Option MaterialSummary
  get_material code rows =
      shown (to_material get_policy subject)
        (find (λ (r : Material). citext_equal r.code code) rows)

pub record ContentRunCounts : Type 0 where
  pub running : ℕ
  pub waiting_human : ℕ
  pub paused : ℕ
  pub failed : ℕ
  pub completed : ℕ
  pub total : ℕ

abbrev pub with_status : String → ContentRun → Bool
with_status status r = r.status == status

unfoldable pub content_run_counts : List ContentRun → ContentRunCounts
content_run_counts rows = record {
  running = count (with_status "RUNNING") rows;
  waiting_human = count (with_status "WAITING_HUMAN") rows;
  paused = count (with_status "PAUSED") rows;
  failed = count (with_status "FAILED") rows;
  completed = count (with_status "COMPLETED") rows;
  total = count (λ r. true) rows;
}

-- `CLOSED_TASK_STATUSES`
abbrev pub closed_task_statuses : List String
closed_task_statuses = "COMPLETED" ∷ "CANCELLED" ∷ []

abbrev pub still_open : HumanTask → Bool
still_open t = not (contains closed_task_statuses t.status)

pub record HumanTaskCounts : Type 0 where
  pub mine : ℕ
  pub open_tasks : ℕ
  pub team : ℕ
  pub completed : ℕ
  pub pending : ℕ

unfoldable pub human_task_counts : Uuid → List HumanTask → HumanTaskCounts
human_task_counts actor rows = record {
  mine = count (λ (t : HumanTask). holds t.assignee_id actor && still_open t) rows;
  open_tasks = count (λ (t : HumanTask). t.status == "OPEN") rows;
  team = count (λ t. true) rows;
  completed = count (λ (t : HumanTask). t.status == "COMPLETED") rows;
  pending = count still_open rows;
}
