-- ===== src/Api/SideEffects/Tests.antt =====
-- A run is exported, and materials are collected for it.
use aipy.Prelude.{
  refl, none, some, List, [], arith, ℕ_discrete, ◌≤◌, ◌≡◌, ◌⊎◌, ◌∷◌, length, find, All, Any, In,
}
use aipy.Api.Errors.{ok}
use aipy.Api.Rows.{ContentRun, content_run_row, ContentExport, ContentRunMaterial}
use aipy.Api.Store.{bumped}
use aipy.Api.Store.Tables.{ContentDb}
use aipy.Api.Boards.{ContentRunSummary, to_content_run}
use aipy.Api.ContentActions.{by_code}
use aipy.Api.SideEffects.{
  SideEffect, content_side_effects, build_export_payload, escape_like, export_of, link_of,
  collect_materials, matching_materials, existing_materials, plan_link, commit_side_effect,
  apply_side_effect, apply_content_action, TenantContext,
}
use aipy.Api.SideEffects.Dispatch.{Effected, apply_content_action-ok}
use aipy.Api.SideEffects.Collected.{
  Mentions, IsLinked, IsCollected, mentioning, collect_materials_iff,
}
use aipy.Api.SideEffects.Links.{link_material_again}
use aipy.Api.SideEffects.Downloads.{exported_run, get_content_export, exported_is_downloaded}
use aipy.Api.ContentActions.Outcomes.{Applied}
use aipy.Api.Fixtures.{operator, operator_policies, running, shelf, shelf_rows, numbered}

escaped : escape_like "50%_\\" ≡ "50\\%\\_\\\\"
unfolding escape_like
escaped = refl

abbrev exported : ContentRun
exported =
    bumped content_run_row running (record running { exported_at = some 900; updated_by = some 7 })

abbrev artifact : ContentExport
artifact = export_of running 7 100 800

abbrev after_export : ContentDb
after_export = record shelf_rows { runs = exported ∷ []; exports = artifact ∷ [] }

abbrev shown : ContentRun → ContentRunSummary
shown = to_content_run operator_policies operator

export_applied :
    apply_side_effect shelf operator_policies operator "CR-1" "export"
      (some "\"CR-1-v3\"")
      7
      numbered
      900
      800
      shelf_rows
    ≡ ok (shown exported, after_export)
unfolding apply_side_effect aipy.Api.Preconditions.parse_expected_version
    aipy.Api.Store.Tables.content_tables aipy.Api.Preconditions.require_version
    aipy.Api.Preconditions.require_permission aipy.Authorization.Service.authorize
    aipy.Authorization.Permission.make_permission aipy.Authorization.Permission.resource
    aipy.Authorization.Service.authorize_by aipy.Authorization.Service.workflow_state_allowed
    aipy.Authorization.Service.violates_duties aipy.Authorization.Service.data_scope_allowed
    aipy.Authorization.Service.scope_matches aipy.Api.Store.Memory.content_run_discrete
    aipy.Prelude.ℕ_discrete
export_applied = refl

export_dispatched :
    apply_content_action shelf operator_policies operator "CR-1" "export"
      (some "\"CR-1-v3\"")
      7
      numbered
      900
      800
      shelf_rows
    ≡ ok (shown exported, after_export)
unfolding apply_content_action aipy.Api.Preconditions.parse_expected_version
    aipy.Api.Store.Tables.content_tables aipy.Api.Preconditions.require_version
    aipy.Api.Preconditions.require_permission aipy.Authorization.Service.authorize
    aipy.Authorization.Permission.make_permission aipy.Authorization.Permission.resource
    aipy.Authorization.Service.authorize_by aipy.Authorization.Service.workflow_state_allowed
    aipy.Authorization.Service.violates_duties aipy.Authorization.Service.data_scope_allowed
    aipy.Authorization.Service.scope_matches aipy.Api.Store.Memory.content_run_discrete
    aipy.Prelude.ℕ_discrete
export_dispatched = refl

apply_content_action-ok_example :
    (In "export" content_side_effects
      × Effected shelf operator_policies operator "CR-1" "export"
          (some "\"CR-1-v3\"")
          7
          numbered
          900
          800
          shelf_rows
          (shown exported)
          after_export)
    ⊎ ((¬ In "export" content_side_effects)
        × Applied shelf.runs operator_policies operator "CR-1" "export"
            (some "\"CR-1-v3\"")
            7
            shelf_rows
            (shown exported)
            after_export)
apply_content_action-ok_example =
    apply_content_action-ok shelf operator_policies operator "CR-1" "export" (some "\"CR-1-v3\"") 7
      numbered 900 800 shelf_rows after_export (shown exported) export_dispatched

running_found :
    find (by_code shelf.runs.citext_equal "CR-1") (shelf.runs.rows shelf_rows 1) ≡ some running
unfolding aipy.Api.Store.Tables.content_tables
running_found = refl

-- Another member of the tenant.
abbrev colleague : TenantContext
colleague = record operator { actor = record operator.actor { actor_id = 8 } }

exported_found : exported_run shelf operator_policies colleague "CR-1" after_export ≡ ok exported
unfolding aipy.Api.Store.Tables.content_tables aipy.Api.Preconditions.require_permission
    aipy.Authorization.Service.authorize aipy.Authorization.Permission.make_permission
    aipy.Authorization.Permission.resource aipy.Authorization.Service.authorize_by
    aipy.Authorization.Service.workflow_state_allowed aipy.Authorization.Service.violates_duties
    aipy.Authorization.Service.data_scope_allowed aipy.Authorization.Service.scope_matches
exported_found = refl

exported_is_downloaded_example :
    get_content_export shelf operator_policies colleague "CR-1" (some 100) after_export
    ≡ ok (record { title = "Launch"; format = "markdown"; payload = build_export_payload running })
exported_is_downloaded_example =
    exported_is_downloaded shelf operator_policies operator colleague operator_policies "CR-1"
      (some "\"CR-1-v3\"") 7 numbered 900 800 shelf_rows after_export (shown exported) running
      exported refl running_found export_applied exported_found refl

payload_text :
    build_export_payload running
    ≡ "# Launch\n\n> 品牌：Acme\u{3000}阶段：draft\u{3000}状态：运行中\n\n（本次任务尚未生成正文，仅导出元信息。）\n"
unfolding build_export_payload
payload_text = refl

mentioned_few : length (mentioning shelf running shelf_rows) ≤ 10
unfolding aipy.Api.SideEffects.mentions aipy.Api.SideEffects.escape_like
    aipy.Api.Store.Tables.content_tables
mentioned_few = omega arith

collect_materials_iff_example :
    (IsCollected shelf running numbered 7 shelf_rows 31
      → (¬ IsLinked shelf running 31 shelf_rows)
        × Any (λ x. Mentions shelf running x × (x.id ≡ 31)) (shelf.materials.rows shelf_rows 1))
    × (length (mentioning shelf running shelf_rows) ≤ 10
        → ¬ IsLinked shelf running 31 shelf_rows
        → Any (λ x. Mentions shelf running x × (x.id ≡ 31)) (shelf.materials.rows shelf_rows 1)
        → IsCollected shelf running numbered 7 shelf_rows 31)
    × All
        (λ (l : ContentRunMaterial). (l.run_id ≡ 11) × (l.tenant_id ≡ 1))
        (collect_materials shelf running 7 numbered shelf_rows)
    × length (collect_materials shelf running 7 numbered shelf_rows) ≤ 10
collect_materials_iff_example = collect_materials_iff shelf running 7 numbered shelf_rows 31

collected :
    collect_materials shelf running 7 numbered shelf_rows ≡ link_of 1 running 31 7 none 100 ∷ []
unfolding collect_materials aipy.Prelude.Sorting.limit aipy.Prelude.Sorting.order_by
    aipy.Api.Store.Tables.content_tables
collected = refl

abbrev linked_run : ContentRun
linked_run =
    bumped content_run_row running (record running { updated_by = some 7; updated_at_label = "刚刚" })

abbrev linking : SideEffect
linking = record {
  run = record {
    loaded = running;
    changed = record running { updated_by = some 7; updated_at_label = "刚刚" };
  };
  exports = [];
  links = link_of 1 running 31 7 (some 7) 100 ∷ [];
}

abbrev linked_again : SideEffect
linked_again = record {
  run = record {
    loaded = linked_run;
    changed = record linked_run { updated_by = some 8; updated_at_label = "刚刚" };
  };
  exports = [];
  links = [];
}

abbrev after_link : ContentDb
after_link = record shelf_rows {
  runs = linked_run ∷ [];
  links = link_of 1 running 31 7 (some 7) 100 ∷ [];
}

link_planned :
    plan_link shelf operator_policies operator "CR-1" "MAT-301" 7 100 shelf_rows ≡ ok linking
unfolding plan_link aipy.Api.Store.Tables.content_tables aipy.Api.Preconditions.require_permission
    aipy.Authorization.Service.authorize aipy.Authorization.Permission.make_permission
    aipy.Authorization.Permission.resource aipy.Authorization.Service.authorize_by
    aipy.Authorization.Service.workflow_state_allowed aipy.Authorization.Service.violates_duties
    aipy.Authorization.Service.data_scope_allowed aipy.Authorization.Service.scope_matches
link_planned = refl

link_committed :
    commit_side_effect shelf shown linking shelf_rows ≡ ok (shown linked_run, after_link)
unfolding commit_side_effect aipy.Api.Store.Tables.content_tables
    aipy.Api.Store.Memory.content_run_discrete aipy.Prelude.ℕ_discrete
link_committed = refl

link_replanned :
    plan_link shelf operator_policies operator "CR-1" "MAT-301" 8 101 after_link ≡ ok linked_again
unfolding plan_link aipy.Api.Store.Tables.content_tables aipy.Api.Preconditions.require_permission
    aipy.Authorization.Service.authorize aipy.Authorization.Permission.make_permission
    aipy.Authorization.Permission.resource aipy.Authorization.Service.authorize_by
    aipy.Authorization.Service.workflow_state_allowed aipy.Authorization.Service.violates_duties
    aipy.Authorization.Service.data_scope_allowed aipy.Authorization.Service.scope_matches
link_replanned = refl

link_material_again_example : ◌≡◌ {A = List ContentRunMaterial} [] []
link_material_again_example =
    link_material_again shelf operator_policies operator "CR-1" "MAT-301" 7 8 100 101 shelf_rows
      after_link linking linked_again (shown linked_run) link_planned link_committed link_replanned
      refl
