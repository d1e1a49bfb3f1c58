-- ===== src/Api/SideEffects.antt =====
-- Actions on content runs that leave the status alone, in apps/api/repositories.py: the export and
-- the collection of materials, the link that a user chooses, and the dispatch of all actions. As
-- in Api/ContentActions a handler is a plan and a commit. The identifiers of new rows, which
-- `new_uuid7` makes, and the readings of the two clocks are arguments.
pub mod Written
pub mod Collected
pub mod Links
pub mod Dispatch
pub mod Downloads
mod Tests
use aipy.Prelude.{
  ℕ, String, Bool, Option, none, some, List, [], map, ◌+◌, ◌||◌, ◌∷◌, ◌==◌, if◌then◌else◌, any,
  keep, find, contains, or_else, fstring, string_eq, nat_eq,
}
use Prim.Native.Char.{Char, code}
use Prim.Native.String
use aipy.Security.{Uuid, TenantContext}
use aipy.Authorization.Policy.{AuthorizationPolicy}
use aipy.Api.Errors.{Result, Failure, ok, err, ◌>>=◌, ◌>>◌, or_raise}
use aipy.Api.Rows.{Time, Row, next_version, ContentRun, Material, ContentExport, ContentRunMaterial}
use aipy.Api.Store.Inserts.{Inserts, ContentStore}
use aipy.Api.Preconditions.{Resource, parse_expected_version, require_permission}
use aipy.Api.Flush.{Pending, commit}
use aipy.Api.Boards.{ContentRunSummary, run_board, to_content_run}
use aipy.Api.ContentActions.{by_code, load_run, apply_state_action}
use aipy.Prelude.Sorting.{order_by, limit}

-- `CONTENT_SIDE_EFFECTS`
abbrev pub content_side_effects : List String
content_side_effects = "export" ∷ "collect" ∷ []

-- `value.replace(old, new)` for an `old` of one character.
unfoldable pub replace : Char → String → String → String
replace old new String.[] = ""
replace old new (String.◌∷◌ c s) =
    let rest = replace old new s in
    if code c == code old then String.◌++◌ new rest else String.◌∷◌ c rest

-- `_escape_like`
unfoldable pub escape_like : String → String
unfolding replace
escape_like value = replace "_" "\\_" (replace "%" "\\%" (replace "\\" "\\\\" value))

-- `row.content or "…"`
abbrev pub body_of : Option String → String
body_of none = "（本次任务尚未生成正文，仅导出元信息。）"
body_of (some content) = or_else content "（本次任务尚未生成正文，仅导出元信息。）"

-- `_build_export_payload`
unfoldable pub build_export_payload : ContentRun → String
build_export_payload row =
    let header = fstring (
      "> 品牌：" ∷ row.brand ∷ "\u{3000}阶段：" ∷ row.stage_label ∷ "\u{3000}状态：" ∷ row.status_label
      ∷ []) in
    fstring ("# " ∷ row.title ∷ "\n\n" ∷ header ∷ "\n\n" ∷ body_of row.content ∷ "\n" ∷ [])

-- The row that `_export_content_run` adds; the database writes its creation time.
abbrev pub export_of : ContentRun → Uuid → Uuid → Time → ContentExport
export_of row actor id created_at = record {
  id = id;
  tenant_id = row.tenant_id;
  created_at = created_at;
  created_by = some actor;
  updated_by = none;
  row_version = next_version none;
  run_id = row.id;
  run_code = row.code;
  format = "markdown";
  title = row.title;
  payload = build_export_payload row;
}

-- `ContentRunMaterial(…)`
abbrev pub link_of : Uuid → ContentRun → Uuid → Uuid → Option Uuid → Uuid → ContentRunMaterial
link_of tenant row material_id creator editor id = record {
  id = id;
  tenant_id = tenant;
  created_by = some creator;
  updated_by = editor;
  row_version = next_version none;
  run_id = row.id;
  material_id = material_id;
}

-- What a handler is about to flush: the run, and the rows that it has added to the session.
pub record SideEffect : Type 0 where
  pub run : Pending ContentRun
  pub exports : List ContentExport
  pub links : List ContentRunMaterial

-- `session.add` of several rows, as they are flushed.
abbrev pub insert_all : {Db R : Type 0} {row : Row R} → Inserts Db row → List R → Db → Result Db
insert_all table [] db = ok db
insert_all table (r ∷ rs) db = elim (table.insert db r) [
  | none ↦ err Failure.integrity_error
  | some db' ↦ insert_all table rs db'
]

-- The loop of `_collect_materials`; the n-th new row has the n-th identifier.
unfoldable pub collect_links :
    ContentRun → Uuid → (ℕ → Uuid) → ℕ → List Uuid → List Material → List ContentRunMaterial
collect_links row actor ids n existing [] = []
collect_links row actor ids n existing (m ∷ ms) =
    let skipped = collect_links row actor ids n existing ms in
    let linked = collect_links row actor ids (n + 1) existing ms in
    if contains existing m.id
    then skipped
    else link_of row.tenant_id row m.id actor none (ids n) ∷ linked

module _ {Db : Type 0} (store : ContentStore Db) where
  -- The materials that mention the brand or the title of the run, by number, at most ten.
  abbrev pub mentions : ContentRun → Material → Bool
  mentions row m =
      let brand = fstring ("%" ∷ escape_like row.brand ∷ "%" ∷ []) in
      let title = fstring ("%" ∷ escape_like row.title ∷ "%" ∷ []) in
      store.ilike m.title brand || (store.ilike m.summary brand || store.ilike m.title title)

  abbrev pub matching_materials : ContentRun → Db → List Material
  matching_materials row db = limit 10 (
      order_by (λ (m : Material). m.seq)
        (keep (mentions row)
          (keep (λ m. m.tenant_id == row.tenant_id) (store.materials.rows db row.tenant_id))))

  -- The links of a run, and the materials that they name.
  abbrev pub links_of_run : Uuid → Uuid → Db → List ContentRunMaterial
  links_of_run tenant run_id db =
      keep (λ (l : ContentRunMaterial). l.run_id == run_id) (store.links.rows db tenant)

  abbrev pub existing_materials : ContentRun → Db → List Uuid
  existing_materials row db =
      map (λ (l : ContentRunMaterial). l.material_id) (links_of_run row.tenant_id row.id db)

  -- `_collect_materials`
  unfoldable pub collect_materials : ContentRun → Uuid → (ℕ → Uuid) → Db → List ContentRunMaterial
  unfolding collect_links
  collect_materials row actor ids db =
      collect_links row actor ids 0 (existing_materials row db) (matching_materials row db)

  -- The flush of everything in the session, the row of the run first.
  unfoldable pub commit_side_effect :
      {S : Type 0} → (ContentRun → S) → SideEffect → Db → Result (S × Db)
  unfolding commit
  commit_side_effect shown e db = do
    (s, db₁) ← commit store.runs shown e.run db
    db₂ ← insert_all store.exports e.exports db₁
    db₃ ← insert_all store.links e.links db₂
    ok (s, db₃)

  -- What the two branches change: `_export_content_run` and `_collect_materials`.
  unfoldable pub effect_of : String → ContentRun → Uuid → (ℕ → Uuid) → Time → Time → Db → SideEffect
  unfolding collect_materials build_export_payload
  effect_of action row actor ids now created_at db =
      if action == "export"
      then record {
        run = record {
          loaded = row;
          changed = record row { exported_at = some now; updated_by = some actor };
        };
        exports = export_of row actor (ids 0) created_at ∷ [];
        links = [];
      }
      else record {
        run = record { loaded = row; changed = record row { updated_by = some actor } };
        exports = [];
        links = if action == "collect" then collect_materials row actor ids db else [];
      }

  module _ (get_policy : TenantContext → Option AuthorizationPolicy) (subject : TenantContext) where
    -- `_apply_content_side_effect` up to `_flush`.
    unfoldable pub plan_side_effect :
        String → String → Option String → Uuid → (ℕ → Uuid) → Time → Time → Db → Result SideEffect
    unfolding effect_of
    plan_side_effect code action if_match actor ids now created_at db = do
      expected ← parse_expected_version if_match
      row ← load_run store.runs get_policy subject code action expected db
      ok (effect_of action row actor ids now created_at db)

    unfoldable pub apply_side_effect :
        String
        → String
        → Option String
        → Uuid
        → (ℕ → Uuid)
        → Time
        → Time
        → Db
        → Result (ContentRunSummary × Db)
    unfolding plan_side_effect commit_side_effect
    apply_side_effect code action if_match actor ids now created_at db = do
      e ← plan_side_effect code action if_match actor ids now created_at db
      commit_side_effect (to_content_run get_policy subject) e db

    -- `apply_content_action`
    unfoldable pub apply_content_action :
        String
        → String
        → Option String
        → Uuid
        → (ℕ → Uuid)
        → Time
        → Time
        → Db
        → Result (ContentRunSummary × Db)
    unfolding apply_side_effect apply_state_action
    apply_content_action code action if_match actor ids now created_at db =
        if contains content_side_effects action
        then apply_side_effect code action if_match actor ids now created_at db
        else apply_state_action store.runs get_policy subject code action if_match actor db

    -- `link_material_to_run`
    unfoldable pub plan_link : String → String → Uuid → Uuid → Db → Result SideEffect
    plan_link code material_code actor id db = do
      run ←
          or_raise
            (find (by_code store.runs.citext_equal code) (store.runs.rows db subject.tenant_id)) 404
            "not_found" "content run not found"
      material ←
          or_raise
            (find (λ (m : Material). store.runs.citext_equal m.code material_code)
              (store.materials.rows db subject.tenant_id))
            404 "not_found" "material not found"
      require_permission get_policy subject Resource.content "collect" (run_board run)
      ok (record {
        run = record {
          loaded = run;
          changed = record run { updated_by = some actor; updated_at_label = "刚刚" };
        };
        exports = [];
        links =
            if any (λ (l : ContentRunMaterial). l.material_id == material.id)
              (links_of_run subject.tenant_id run.id db)
            then []
            else link_of subject.tenant_id run material.id actor (some actor) id ∷ [];
      })

    unfoldable pub link_material_to_run :
        String → String → Uuid → Uuid → Db → Result (ContentRunSummary × Db)
    unfolding plan_link commit_side_effect
    link_material_to_run code material_code actor id db = do
      e ← plan_link code material_code actor id db
      commit_side_effect (to_content_run get_policy subject) e db
