-- ===== src/Api/Creation.antt =====
-- New rows: `create_material` and `create_content_run` of apps/api/repositories.py. A material may
-- come from a URL, whose page is fetched before any row is written.
pub mod Materials
pub mod Runs
mod Tests
use aipy.Prelude.{
  ℕ, String, Bool, true, Option, none, some, List, [], map, ◌+◌, ◌/◌, ◌≡◌, ◌∷◌, if◌then◌else◌, ltb,
  In, is_blank, or_else, given, fstring, strip,
}
use aipy.Prelude.Decimal.{decimal}
use aipy.Prelude.Calendar.{Date, date_of, day_length}
use aipy.Security.{Uuid, TenantContext}
use aipy.Authorization.Policy.{AuthorizationPolicy}
use aipy.Organization.{AppUser}
use aipy.Content.StateMachine.{content_status_label}
use aipy.Api.Errors.{Result, Failure, ok, err, ◌>>=◌, ◌>>◌, or_failure}
use aipy.Api.Rows.{Time, ContentRun, content_run_row, material_row, next_version}
use aipy.Api.Store.Inserts.{Inserts}
use aipy.Api.Preconditions.{Resource, require_create_permission}
use aipy.Api.Boards.{ContentRunSummary, to_content_run}
use aipy.Api.Uploads.{
  NewMaterial, MaterialSummary, new_material, next_material_seq, to_material, three_digits,
  max_or_zero,
}
use aipy.Api.UrlImport.{Web, History, PageMetadata, fetch_metadata}

pub record CreateMaterialCommand : Type 0 where
  pub title : Option String
  pub url : Option String
  pub summary : String
  pub trust_label : String

-- What `create_material` knows of the source before the transaction.
pub record Described : Type 0 where
  pub title : String
  pub summary : String
  pub source : String
  pub type : String

abbrev pub from_page :
    String → String → String → Result PageMetadata × History → Result Described × History
from_page url title summary (err failure, past) = (err failure, past)
from_page url title summary (ok metadata, past) = (
  ok (record {
    title = or_else title metadata.title;
    summary =
        or_else summary (or_else metadata.description (fstring ("来自 " ∷ url ∷ " 的网页，正文待采集。" ∷ [])));
    source = metadata.host;
    type = "网页";
  }),
  past,
)

module _ {Address : Type 0} (web : Web Address) where
  unfoldable pub described : String → String → String → History → Result Described × History
  unfolding fetch_metadata
  described url title summary past =
      if is_blank url
      then (ok (record { title = title; summary = summary; source = "人工录入"; type = "文本" }), past)
      else from_page url title summary (fetch_metadata web url past)

  module _ {Db : Type 0} (materials : Inserts Db material_row)
      (get_policy : TenantContext → Option AuthorizationPolicy) (subject : TenantContext) where
    abbrev pub insert_described :
        CreateMaterialCommand
        → Uuid
        → Uuid
        → Db
        → Result Described × History
        → Result (MaterialSummary × Db) × History
    insert_described command actor id db (err failure, past) = (err failure, past)
    insert_described command actor id db (ok d, past) =
        let row = new_material subject.tenant_id actor id (record {
          seq = next_material_seq (materials.rows db subject.tenant_id);
          title = or_else d.title d.source;
          summary = d.summary;
          source = d.source;
          type = d.type;
          trust_label = strip command.trust_label;
        }) in
        (
          (do
            db' ← or_failure Failure.integrity_error (materials.insert db row)
            ok (to_material get_policy subject row, db')),
          past,
        )

    abbrev pub when_allowed :
        CreateMaterialCommand
        → Uuid
        → Uuid
        → Db
        → History
        → Result (Unit {0})
        → Result (MaterialSummary × Db) × History
    when_allowed command actor id db past (err failure) = (err failure, past)
    when_allowed command actor id db past (ok _) = insert_described command actor id db (
        described (strip (given command.url "")) (strip (given command.title ""))
          (strip command.summary) past)

    unfoldable pub create_material :
        CreateMaterialCommand → Uuid → Uuid → Db → History → Result (MaterialSummary × Db) × History
    unfolding described three_digits
    create_material command actor id db past =
        when_allowed command actor id db past
          (require_create_permission get_policy subject Resource.source "create")

pub record CreateContentRunCommand : Type 0 where
  pub title : String
  pub brand : String
  pub stage_label : String

-- `f"{n:02d}"`, and `f"{moment:%Y%m%d}"` from the year 1000 on.
abbrev pub two_digits : ℕ → String
two_digits n = if ltb n 10 then fstring ("0" ∷ decimal n ∷ []) else decimal n

unfoldable pub compact_date : Time → String
unfolding decimal date_of
compact_date moment =
    let date = date_of (moment / day_length) in
    fstring
      (decimal date.year_month.year ∷ two_digits date.year_month.month ∷ two_digits date.day ∷ [])

-- The tables that a new run touches, with the unique key of the runs.
pub record RunStore (Db : Type 0) : Type 0 where
  pub runs : Inserts Db content_run_row
  -- `session.get(AppUser, id)`
  pub user : Db → Uuid → Option AppUser
  pub citext_equal : String → String → Bool
  pub citext_refl : (s : String) → citext_equal s s ≡ true
  -- `uq_content_run_tenant_code`
  pub unique_code :
      (db : Db) (t : Uuid) (x y : ContentRun)
      → In x (runs.rows db t)
      → In y (runs.rows db t)
      → citext_equal x.code y.code ≡ true
      → x ≡ y

abbrev pub owner_of : Option AppUser → String
owner_of none = "未指派"
owner_of (some actor) = actor.display_name

unfoldable pub new_run :
    Uuid → CreateContentRunCommand → Uuid → Uuid → Time → ℕ → Option AppUser → ContentRun
unfolding content_status_label compact_date three_digits
new_run tenant command actor id now seq user =
    let (label, tone) = content_status_label "RUNNING" in
    record {
      id = id;
      tenant_id = tenant;
      created_by = some actor;
      updated_by = some actor;
      row_version = next_version none;
      code = fstring ("CR-" ∷ compact_date now ∷ "-" ∷ three_digits seq ∷ []);
      seq = seq;
      title = strip command.title;
      brand = strip command.brand;
      stage_label = strip command.stage_label;
      status_label = label;
      status = "RUNNING";
      tone = tone;
      owner = owner_of user;
      content = none;
      exported_at = none;
      updated_at_label = "刚刚";
      allowed_actions = [];
    }

abbrev pub next_run_seq : List ContentRun → ℕ
next_run_seq rows = max_or_zero (map (λ (r : ContentRun). r.seq) rows) + 1

module _ {Db : Type 0} (store : RunStore Db)
    (get_policy : TenantContext → Option AuthorizationPolicy) (subject : TenantContext) where
  unfoldable pub create_content_run :
      CreateContentRunCommand → Uuid → Uuid → Time → Db → Result (ContentRunSummary × Db)
  unfolding new_run
  create_content_run command actor id now db = do
    require_create_permission get_policy subject Resource.content "create"
    let row =
        new_run subject.tenant_id command actor id now
          (next_run_seq (store.runs.rows db subject.tenant_id)) (store.user db actor)
    db' ← or_failure Failure.integrity_error (store.runs.insert db row)
    ok (to_content_run get_policy subject row, db')
