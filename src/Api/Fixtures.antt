-- ===== src/Api/Fixtures.antt =====
-- Test data: a tenant with one content run and one human task, and an operator who may do
-- everything that the tests do.
use aipy.Prelude.{ℕ, String, true, Option, none, some, List, [], ◌+◌, ◌∷◌, ◌==◌, string_eq, nat_eq}
use aipy.Security.{Uuid, TenantContext, ActorType}
use aipy.Authorization.Policy.{
  DataScope, DataScopeGrant, PermissionGrant, AuthorizationPolicy, default_duties,
}
use aipy.Organization.{TenantMembership}
use aipy.Api.Rows.{ContentRun, content_run_row, HumanTask, human_task_row}
use aipy.Api.Store.{Table}
use aipy.Api.Rows.{Material}
use aipy.Api.Store.Inserts.{ContentStore}
use aipy.Api.Store.Tables.{ContentDb, content_tables}
use aipy.Api.Store.Memory.{memory, content_run_discrete, human_task_discrete}

abbrev pub operator : TenantContext
operator = record {
  tenant_id = 1;
  actor = record {
    actor_id = 7;
    actor_type = ActorType.user;
    role_ids = [];
    team_ids = [];
    workspace_ids = [];
    session_id = none;
  };
  request_id = "r-1";
}

abbrev pub whole_tenant : List DataScopeGrant
whole_tenant =
    (record { scope = DataScope.tenant_all; workspace_ids = []; team_ids = []; custom = none }) ∷ []

abbrev pub grant : String → PermissionGrant
grant code = record { permission = record { code = code }; data_scopes = whole_tenant }

abbrev pub operator_policy : AuthorizationPolicy
operator_policy = record {
  tenant_active = true;
  actor_active = true;
  permission_grants =
      grant "review:submit"
      ∷ grant "review:claim"
      ∷ grant "review:approve"
      ∷ grant "content:pause"
      ∷ grant "content:export"
      ∷ grant "content:collect"
      ∷ grant "content:cancel"
      ∷ [];
  workflow_state_policies = [];
  separation_of_duties = default_duties;
}

abbrev pub operator_policies : TenantContext → Option AuthorizationPolicy
operator_policies s = some operator_policy

abbrev pub running : ContentRun
running = record {
  id = 11;
  tenant_id = 1;
  created_by = some 9;
  updated_by = none;
  row_version = 3;
  code = "CR-1";
  seq = 1;
  title = "Launch";
  brand = "Acme";
  stage_label = "draft";
  status_label = "运行中";
  status = "RUNNING";
  tone = "info";
  owner = "Li";
  content = none;
  exported_at = none;
  updated_at_label = "昨天";
  allowed_actions = [];
}

abbrev pub open_task : HumanTask
open_task = record {
  id = 21;
  tenant_id = 1;
  created_by = some 9;
  updated_by = none;
  row_version = 5;
  code = "HT-1";
  seq = 1;
  title = "Review";
  type = "review";
  reason = "risk";
  priority = "普通";
  brand = "Acme";
  owner = "Li";
  due_label = "today";
  status = "OPEN";
  decision = none;
  assignee_id = none;
  lease_expires_at = none;
  allowed_actions = [];
}

abbrev pub no_members : List HumanTask → Uuid → List TenantMembership
no_members db t = []

abbrev pub runs : Table (List ContentRun) content_run_row
runs = memory content_run_row content_run_discrete (λ a b. a == b)

abbrev pub tasks : Table (List HumanTask) human_task_row
tasks = memory human_task_row human_task_discrete (λ a b. a == b)

abbrev pub report : Material
report = record {
  id = 31;
  tenant_id = 1;
  created_by = some 9;
  updated_by = none;
  row_version = 0;
  code = "MAT-301";
  seq = 301;
  title = "Acme report";
  summary = "market";
  source = "example.com";
  type = "PDF";
  trust_label = "高可信";
  tone = "success";
  updated_at_label = "今天";
  allowed_actions = [];
}

-- Every text is like every pattern.
abbrev pub shelf : ContentStore ContentDb
shelf = content_tables (λ text pattern. true)

abbrev pub shelf_rows : ContentDb
shelf_rows = record { runs = running ∷ []; materials = report ∷ []; exports = []; links = [] }

abbrev pub numbered : ℕ → Uuid
numbered n = 100 + n
