-- ===== src/Api/Creation/Tests.antt =====
-- A material from a URL, and a new run, over tables with room for one row.
use aipy.Prelude.{
  refl, true, Option, none, some, [], eq_iff, ◌+◌, ◌≤◌, ◌<◌, ◌≡◌, ◌↔◌, ◌⊎◌, ◌∷◌, ◌==◌, find, In,
  is_blank, given, strip, string_eq, nat_eq,
}
use aipy.Security.{TenantContext}
use aipy.Authorization.Policy.{AuthorizationPolicy}
use aipy.Api.Errors.{ok}
use aipy.Api.Rows.{Material, ContentRun, material_row, content_run_row}
use aipy.Api.Store.Inserts.{Inserts}
use aipy.Api.Store.Slots.{slot_inserts, slot_same}
use aipy.Api.Fixtures.{operator, operator_policy, grant}
use aipy.Api.Boards.{to_content_run}
use aipy.Api.ContentActions.{by_code}
use aipy.Api.Uploads.{to_material}
use aipy.Api.UrlImport.{max_redirects}
use aipy.Api.UrlImport.Guarded.{IsGuarded, requests}
use aipy.Api.UrlImport.Network.{network, start, visited}
use aipy.Api.Creation.{
  CreateMaterialCommand, CreateContentRunCommand, RunStore, create_material, create_content_run,
}
use aipy.Api.Creation.Materials.{Created, create_material-Created}
use aipy.Api.Creation.Runs.{created_run_found}

abbrev author_policies : TenantContext → Option AuthorizationPolicy
author_policies subject = some (record operator_policy {
  permission_grants = grant "source:create" ∷ grant "content:create" ∷ [];
})

unfoldable materials : Inserts (Option Material) material_row
unfolding slot_inserts
materials = slot_inserts material_row

abbrev link : CreateMaterialCommand
link = record { title = none; url = some start; summary = " "; trust_label = "官方来源" }

abbrev imported : Material
imported = record {
  id = 60;
  tenant_id = 1;
  created_by = some 7;
  updated_by = some 7;
  row_version = 0;
  code = "MAT-001";
  seq = 1;
  title = "story";
  summary = "About  it";
  source = "www.example";
  type = "网页";
  trust_label = "官方来源";
  tone = "info";
  updated_at_label = "刚刚";
  allowed_actions = [];
}

link_created :
    create_material network materials author_policies operator link 7 60 none []
    ≡ (ok (to_material author_policies operator imported, some imported), visited)
unfolding create_material materials aipy.Api.Preconditions.require_create_permission
    aipy.Authorization.Service.authorize aipy.Authorization.Permission.make_permission
    aipy.Authorization.Permission.resource aipy.Authorization.Service.authorize_by
    aipy.Authorization.Service.workflow_state_allowed aipy.Authorization.Service.violates_duties
    aipy.Authorization.Service.data_scope_allowed aipy.Authorization.Service.scope_matches
    aipy.Api.UrlImport.extract_metadata
link_created = refl

create_material-Created_example :
    Created materials author_policies operator link 7 none
      (to_material author_policies operator imported)
      (some imported)
    × IsGuarded network visited
    × (requests visited ≤ requests [] + (max_redirects + 1))
    × (is_blank (strip (given link.url "")) ≡ true → visited ≡ [])
create_material-Created_example =
    create_material-Created network materials author_policies operator link 7 60 none
      (some imported) [] visited (to_material author_policies operator imported) tt link_created

unfoldable run_table : RunStore (Option ContentRun)
unfolding slot_inserts
run_table = record {
  runs = slot_inserts content_run_row;
  user = λ db id. none;
  citext_equal = λ a b. a == b;
  citext_refl = λ s. (eq_iff s s).1 refl;
  unique_code = λ db t x y h k e. slot_same content_run_row db t x y h k;
}

abbrev launch : CreateContentRunCommand
launch = record { title = " Launch "; brand = "Acme"; stage_label = "素材准备" }

-- The first run of a tenant, on 2024-02-29.
abbrev launched : ContentRun
launched = record {
  id = 70;
  tenant_id = 1;
  created_by = some 7;
  updated_by = some 7;
  row_version = 0;
  code = "CR-20240229-001";
  seq = 1;
  title = "Launch";
  brand = "Acme";
  stage_label = "素材准备";
  status_label = "运行中";
  status = "RUNNING";
  tone = "info";
  owner = "未指派";
  content = none;
  exported_at = none;
  updated_at_label = "刚刚";
  allowed_actions = [];
}

run_created :
    create_content_run run_table author_policies operator launch 7 70 1709200000000000 none
    ≡ ok (to_content_run author_policies operator launched, some launched)
unfolding create_content_run run_table aipy.Api.Preconditions.require_create_permission
    aipy.Authorization.Service.authorize aipy.Authorization.Permission.make_permission
    aipy.Authorization.Permission.resource aipy.Authorization.Service.authorize_by
    aipy.Authorization.Service.workflow_state_allowed aipy.Authorization.Service.violates_duties
    aipy.Authorization.Service.data_scope_allowed aipy.Authorization.Service.scope_matches
    aipy.Content.Status.content_status
run_created = refl

created_run_found_example :
    (row : ContentRun) × (to_content_run author_policies operator launched
      ≡ to_content_run author_policies operator row)
    × (find
          (by_code run_table.citext_equal "CR-20240229-001")
          (run_table.runs.rows (some launched) 1)
        ≡ some row)
    × (row.status ≡ "RUNNING")
    × (row.row_version ≡ 0)
    × (row.created_by ≡ some 7)
    × ((r : ContentRun) → In r (run_table.runs.rows none 1) → r.seq < row.seq)
    × ((r : ContentRun)
        → In r (run_table.runs.rows (some launched) 1)
          ↔ ((r ≡ row) ⊎ In r (run_table.runs.rows none 1)))
created_run_found_example =
    created_run_found run_table author_policies operator launch 7 70 1709200000000000 none
      (some launched) (to_content_run author_policies operator launched) run_created
