-- ===== src/Api/Uploads/Tests.antt =====
-- An upload and its download, over tables with room for one row.
use aipy.Prelude.{
  ℕ, String, refl, false, Option, none, some, List, [], eq_iff, ◌≤◌, ◌≡◌, ◌∷◌, ◌==◌, length,
  has_char, string_eq, nat_eq,
}
use aipy.Api.Errors.{ok, ◌>>◌}
use aipy.Api.Rows.{Material, MaterialFile, material_row, material_file_row}
use aipy.Api.Store.Lenses.{Part, inserts_in, replace_inserted-some}
use aipy.Api.Store.Slots.{slot_inserts, slot_same}
use aipy.Api.Fixtures.{operator, operator_policy, grant}
use aipy.Security.{TenantContext}
use aipy.Authorization.Policy.{AuthorizationPolicy}
use aipy.Api.Preconditions.{Resource, require_permission}
use aipy.Api.Uploads.{
  MaterialSummary, StoredFile, max_upload_bytes, uploaded_material, to_material, upload_material,
  get_material_file,
}
use aipy.Api.Uploads.FileNames.{
  path_name, suffix, stem, upload_type, text_preview, human_size, is_slash,
}
use aipy.Api.Uploads.Store.{UploadStore}
use aipy.Api.Uploads.Downloaded.{uploaded_is_downloaded}

hostile_name : path_name "../../etc/./Report.PDF/" ≡ "Report.PDF"
unfolding path_name
hostile_name = refl

named_type : upload_type "a.b.DOCX" ≡ "DOCX"
unfolding suffix
named_type = refl

hidden_file : stem ".profile" ≡ ".profile"
unfolding stem
hidden_file = refl

sizes : (human_size 900 ≡ "900 B") × (human_size 2560 ≡ "2 KB") × (human_size 1572864 ≡ "1.5 MB")
unfolding human_size
sizes = (refl, refl, refl)

preview : text_preview (some "# A  title\n\ntext ") "notes.MD" ≡ "# A title text"
unfolding text_preview
preview = refl

pub record UploadDb : Type 0 where
  pub material : Option Material
  pub file : Option MaterialFile

abbrev material_part : Part UploadDb (Option Material)
material_part = record {
  view = λ db. db.material;
  replace = λ r db. record db { material = r };
  replaced = λ r db. refl;
  unchanged = λ db. refl;
}

abbrev file_part : Part UploadDb (Option MaterialFile)
file_part = record {
  view = λ db. db.file;
  replace = λ r db. record db { file = r };
  replaced = λ r db. refl;
  unchanged = λ db. refl;
}

unfoldable uploads : UploadStore UploadDb
unfolding inserts_in slot_inserts
uploads = record {
  materials = inserts_in material_part (slot_inserts material_row);
  files = inserts_in file_part (slot_inserts material_file_row);
  citext_equal = λ a b. a == b;
  citext_refl = λ s. (eq_iff s s).1 refl;
  unique_code = λ db t x y h k e. slot_same material_row db.material t x y h k;
  unique_file = λ db t x y h k e. slot_same material_file_row db.file t x y h k;
  file_frame = λ db db' r h t.
      let (s, _o, after) = replace_inserted-some file_part db db' _ h in rw after refl;
}

-- An operator who may add materials.
abbrev librarian_policies : TenantContext → Option AuthorizationPolicy
librarian_policies subject =
    some (record operator_policy { permission_grants = grant "source:create" ∷ [] })

abbrev bytes : List ℕ
bytes = 80 ∷ 68 ∷ 70 ∷ []

abbrev no_text : List ℕ → Option String
no_text read = none

abbrev empty : UploadDb
empty = record { material = none; file = none }

abbrev row : Material
row = record {
  id = 60;
  tenant_id = 1;
  created_by = some 7;
  updated_by = some 7;
  row_version = 0;
  code = "MAT-001";
  seq = 1;
  title = "report";
  summary = "人工上传的原件：report.pdf（3 B）。";
  source = "人工上传";
  type = "PDF";
  trust_label = "待复核";
  tone = "warning";
  updated_at_label = "刚刚";
  allowed_actions = [];
}

abbrev after : UploadDb
after = record {
  material = some row;
  file = some (record {
    id = 61;
    tenant_id = 1;
    created_by = some 7;
    updated_by = some 7;
    row_version = 0;
    material_id = 60;
    filename = "report.pdf";
    content_type = "application/pdf";
    byte_size = 3;
    content = bytes;
  });
}

uploaded :
    upload_material uploads librarian_policies operator
      (some "x/report.pdf")
      (some "application/pdf")
      bytes
      no_text
      ""
      "待复核"
      7
      60
      61
      empty
    ≡ ok (to_material librarian_policies operator row, after)
unfolding uploads upload_material aipy.Api.Preconditions.require_create_permission
    aipy.Authorization.Service.authorize aipy.Authorization.Permission.make_permission
    aipy.Authorization.Permission.resource aipy.Authorization.Service.authorize_by
    aipy.Authorization.Service.workflow_state_allowed aipy.Authorization.Service.violates_duties
    aipy.Authorization.Service.data_scope_allowed aipy.Authorization.Service.scope_matches
    aipy.Prelude.Sorting.limit uploaded_material aipy.Api.Uploads.uploaded_file
uploaded = refl

uploaded_is_downloaded_example :
    (name : String) × (has_char is_slash name ≡ false)
    × (length bytes ≤ max_upload_bytes)
    × (get_material_file uploads librarian_policies operator "MAT-001" after ≡ (
        require_permission librarian_policies operator Resource.source "view"
          (record { id = 60; created_by = some 7; assignee_id = none })
        >> ok
            (some (record { filename = name; content_type = "application/pdf"; content = bytes }))))
uploaded_is_downloaded_example =
    uploaded_is_downloaded uploads librarian_policies operator (some "x/report.pdf")
      (some "application/pdf") bytes no_text "" "待复核" 7 60 61 empty after
      (to_material librarian_policies operator row) uploaded
