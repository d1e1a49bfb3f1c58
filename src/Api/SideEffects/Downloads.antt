-- ===== src/Api/SideEffects/Downloads.antt =====
-- The export history of a run and its downloads: `list_content_exports` and `get_content_export` of
-- apps/api/repositories.py. The identifier in a summary stays a UUID, and its creation time a time.

use aipy.Prelude.{
  ℕ, String, refl, sym, ap, subst, inl, inr, Option, some, List, map, ◌+◌, ◌≡◌, ◌∙◌, ◌&&◌, ◌==◌,
  if◌then◌else◌, ltb, nat_beq_iff, Option-cases, and_Decides, keep, find, find_holds, In, In-find,
  find-none, string_eq, nat_eq,
}
use aipy.Prelude.Sorting.{order_by_desc, limit}
use Prim.Native.Char.{Char, code}
use aipy.Security.{Uuid, TenantContext}
use aipy.Authorization.Policy.{AuthorizationPolicy}
use aipy.Api.Errors.{Result, ok, ◌>>=◌, ◌>>◌, or_raise}
use aipy.Api.Rows.{Time, ContentRun, ContentExport}
use aipy.Api.Store.Inserts.{ContentStore}
use aipy.Api.Preconditions.{Resource, require_permission}
use aipy.Api.Boards.{ContentRunSummary, run_board}
use aipy.Api.ContentActions.{by_code}
use aipy.Api.SideEffects.{build_export_payload, export_of, effect_of, apply_side_effect}
use aipy.Api.SideEffects.Dispatch.{apply_side_effect-Effected}

-- The bytes of a character in UTF-8, and `len(text.encode("utf-8"))`.
abbrev pub char_bytes : Char → ℕ
char_bytes c =
    if ltb (code c) 128
    then 1
    else if ltb (code c) 2048
    then 2
    else if ltb (code c) 65536
    then 3
    else 4

unfoldable pub utf8_length : String → ℕ
utf8_length String.[] = 0
utf8_length (String.◌∷◌ c s) = char_bytes c + utf8_length s

pub record ExportSummary : Type 0 where
  pub id : Uuid
  pub title : String
  pub format : String
  pub created_at : Time
  pub size_bytes : ℕ

pub record ExportDownload : Type 0 where
  pub title : String
  pub format : String
  pub payload : String

abbrev pub export_summary : ContentExport → ExportSummary
export_summary row = record {
  id = row.id;
  title = row.title;
  format = row.format;
  created_at = row.created_at;
  size_bytes = utf8_length row.payload;
}

abbrev pub export_download : ContentExport → ExportDownload
export_download row = record { title = row.title; format = row.format; payload = row.payload }

module _ {Db : Type 0} (store : ContentStore Db)
    (get_policy : TenantContext → Option AuthorizationPolicy) (subject : TenantContext) where
  -- The run, and the permission to export it.
  abbrev pub exported_run : String → Db → Result ContentRun
  exported_run code db = do
    run ←
        or_raise
          (find (by_code store.runs.citext_equal code) (store.runs.rows db subject.tenant_id)) 404
          "not_found" "content run not found"
    require_permission get_policy subject Resource.content "export" (run_board run)
    ok run

  unfoldable pub list_content_exports : String → Db → Result (List ExportSummary)
  unfolding utf8_length
  list_content_exports code db = do
    run ← exported_run code db
    let rows = limit 50 (
        order_by_desc (λ (x : ContentExport). x.created_at)
          (keep (λ (x : ContentExport). x.run_id == run.id)
            (store.exports.rows db subject.tenant_id)))
    ok (map export_summary rows)

  -- The argument `uuid` is `UUID(export_id)`, where a `ValueError` is `none`.
  unfoldable pub get_content_export : String → Option Uuid → Db → Result ExportDownload
  get_content_export code uuid db = do
    parsed_id ← or_raise uuid 400 "invalid_id" "导出记录 ID 格式不正确"
    run ← exported_run code db
    row ←
        or_raise
          (find (λ (x : ContentExport). x.id == parsed_id && x.run_id == run.id)
            (store.exports.rows db subject.tenant_id))
          404 "not_found" "export artifact not found"
    ok (export_download row)

  found_export :
      (rows : List ContentExport) (x : ContentExport) (id run_id : Uuid)
      → In x rows
      → x.id ≡ id
      → x.run_id ≡ run_id
      → (y : ContentExport) × (find (λ (e : ContentExport). e.id == id && e.run_id == run_id) rows
          ≡ some y)
        × In y rows
        × (y.id ≡ id)
  found_export rows x id run_id there same run =
      let test = λ (e : ContentExport). e.id == id && e.run_id == run_id in
      elim (Option-cases (find test rows)) [
        | inl e ↦ absurd (
            find-none test rows e x there
              ((and_Decides _ _ (nat_beq_iff x.id id) (nat_beq_iff x.run_id run_id)).1 (same, run)))
        | inr (y, e) ↦ (
          y,
          e,
          In-find test rows y e,
          ((and_Decides _ _ (nat_beq_iff y.id id) (nat_beq_iff y.run_id run_id)).0
              (find_holds test rows y e)).0,
        )
      ]

module _ {Db : Type 0} (store : ContentStore Db)
    (get_policy : TenantContext → Option AuthorizationPolicy) (subject : TenantContext) where
  -- After an export of a run that succeeds, every caller of the tenant whose own policies permit an
  -- export of the run, provided the code still finds it, downloads under the new identifier the
  -- run's title and the markdown of the run as it was exported.
  pub exported_is_downloaded :
      (other : TenantContext) (policies : TenantContext → Option AuthorizationPolicy)
      (code : String) (if_match : Option String) (actor : Uuid) (ids : ℕ → Uuid)
      (now created_at : Time) (db db' : Db) (summary : ContentRunSummary) (run after : ContentRun)
      → other.tenant_id ≡ subject.tenant_id
      → find (by_code store.runs.citext_equal code) (store.runs.rows db subject.tenant_id)
        ≡ some run
      → apply_side_effect store get_policy subject code "export" if_match actor ids now created_at
          db
        ≡ ok (summary, db')
      → exported_run store policies other code db' ≡ ok after
      → after.id ≡ run.id
      → get_content_export store policies other code (some (ids 0)) db'
        ≡ ok (record { title = run.title; format = "markdown"; payload = build_export_payload run })
  unfolding get_content_export effect_of
  exported_is_downloaded other policies code if_match actor ids now created_at db db' summary run
        after in_tenant found h again same =
      let done =
        apply_side_effect-Effected store get_policy subject code "export" if_match actor ids now
          created_at db db' summary h in
      let is : done.row ≡ run = cc (found, done.loaded.stored) in
      let new = export_of done.row actor (ids 0) created_at in
      let there =
        (done.stored.exports subject.tenant_id new).1 (inl (inl (refl, done.loaded.own_tenant))) in
      let (y, first, stored, id) =
        found_export store get_policy subject (store.exports.rows db' subject.tenant_id) new (ids 0)
          after.id there refl (ap (λ (r : ContentRun). r.id) is ∙ sym same) in
      let unique = store.exports.primary_key db' subject.tenant_id y new stored there id in
      let first' =
        subst
          (λ t.
            find (λ (x : ContentExport). x.id == ids 0 && x.run_id == after.id)
              (store.exports.rows db' t)
            ≡ some y)
          (sym in_tenant) first in
      rw (again, first', unique, is) refl
