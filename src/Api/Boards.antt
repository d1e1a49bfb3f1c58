-- ===== src/Api/Boards.antt =====
-- The rows as the boards show them: `_to_content_run` and `_to_human_task` of
-- apps/api/repositories.py, and the actions that they offer.
pub mod Offers
mod Tests
use aipy.Prelude.{ℕ, String, Option, none, List}
use aipy.Security.{TenantContext}
use aipy.Authorization.Policy.{AuthorizationPolicy}
use aipy.Content.StateMachine.{task_status_label}
use aipy.Api.Rows.{ContentRun, HumanTask}
use aipy.Api.Preconditions.{Resource, BoardRow, etag, row_actions}

abbrev pub run_board : ContentRun → BoardRow
run_board r = record { id = r.id; created_by = r.created_by; assignee_id = none }

abbrev pub task_board : HumanTask → BoardRow
task_board r = record { id = r.id; created_by = r.created_by; assignee_id = r.assignee_id }

-- The summaries of apps/api/schemas.py; `denial_reason` keeps its default and is left out, and
-- the rows are taken to have one of the two priorities that the schema admits.
pub record ContentRunSummary : Type 0 where
  pub id : String
  pub title : String
  pub brand : String
  pub stage_label : String
  pub status : String
  pub status_label : String
  pub tone : String
  pub owner : String
  pub updated_at : String
  pub allowed_actions : List String
  pub etag : String
  pub version : ℕ

pub record HumanTaskSummary : Type 0 where
  pub id : String
  pub title : String
  pub type : String
  pub reason : String
  pub priority : String
  pub brand : String
  pub owner : String
  pub due_label : String
  pub status_label : String
  pub allowed_actions : List String
  pub etag : String
  pub version : ℕ

module _ (get_policy : TenantContext → Option AuthorizationPolicy) (subject : TenantContext) where
  abbrev pub to_content_run : ContentRun → ContentRunSummary
  to_content_run row = record {
    id = row.code;
    title = row.title;
    brand = row.brand;
    stage_label = row.stage_label;
    status = row.status;
    status_label = row.status_label;
    tone = row.tone;
    owner = row.owner;
    updated_at = row.updated_at_label;
    allowed_actions = row_actions get_policy subject Resource.content (run_board row);
    etag = etag row.code row.row_version;
    version = row.row_version;
  }

  abbrev pub to_human_task : HumanTask → HumanTaskSummary
  to_human_task row = record {
    id = row.code;
    title = row.title;
    type = row.type;
    reason = row.reason;
    priority = row.priority;
    brand = row.brand;
    owner = row.owner;
    due_label = row.due_label;
    status_label = task_status_label row.status;
    allowed_actions = row_actions get_policy subject Resource.review (task_board row);
    etag = etag row.code row.row_version;
    version = row.row_version;
  }
