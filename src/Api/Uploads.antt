-- ===== src/Api/Uploads.antt =====
-- Uploaded materials: `create_uploaded_material` and `get_material_file` of
-- apps/api/repositories.py, and the upload route of apps/api/routes/materials.py.
pub mod FileNames
pub mod Store
pub mod Downloaded
mod Tests
use aipy.Prelude.{
  ℕ, String, Option, none, some, List, [], map, ◌+◌, ◌/◌, ◌∷◌, ◌==◌, if◌then◌else◌, ltb, length,
  find, is_empty, or_else, given, fstring, strip, take_text, get, string_eq, nat_eq,
}
use aipy.Prelude.Decimal.{decimal}
use aipy.Prelude.Sorting.{limit}
use aipy.Security.{Uuid, TenantContext}
use aipy.Authorization.Policy.{AuthorizationPolicy}
use aipy.Api.Errors.{Result, Failure, ok, ◌>>=◌, ◌>>◌, raise_if, or_failure}
use aipy.Api.Rows.{Material, MaterialFile, next_version}
use aipy.Api.Preconditions.{
  Resource, BoardRow, require_permission, require_create_permission, row_actions, etag,
}
use aipy.Api.Uploads.FileNames.{path_name, stem, upload_type, text_preview, human_size}
use aipy.Api.Uploads.Store.{UploadStore}

-- `MATERIAL_TRUST_TONES`
abbrev pub material_trust_tones : List (String × String)
material_trust_tones =
    ("高可信", "success") ∷ ("官方来源", "info") ∷ ("内部资料", "neutral") ∷ ("待复核", "warning") ∷ []

abbrev pub tone_or_neutral : Option String → String
tone_or_neutral none = "neutral"
tone_or_neutral (some tone) = tone

abbrev pub max_upload_bytes : ℕ
max_upload_bytes = 10485760

pub record MaterialSummary : Type 0 where
  pub id : String
  pub title : String
  pub summary : String
  pub source : String
  pub type : String
  pub trust_label : String
  pub tone : String
  pub updated_at : String
  pub allowed_actions : List String
  pub etag : String
  pub version : ℕ

pub record StoredFile : Type 0 where
  pub filename : String
  pub content_type : String
  pub content : List ℕ

abbrev pub material_board : Material → BoardRow
material_board m = record { id = m.id; created_by = m.created_by; assignee_id = none }

-- `_to_material`
abbrev pub to_material :
    (TenantContext → Option AuthorizationPolicy) → TenantContext → Material → MaterialSummary
to_material get_policy subject row = record {
  id = row.code;
  title = row.title;
  summary = row.summary;
  source = row.source;
  type = row.type;
  trust_label = row.trust_label;
  tone = row.tone;
  updated_at = row.updated_at_label;
  allowed_actions = row_actions get_policy subject Resource.source (material_board row);
  etag = etag row.code row.row_version;
  version = row.row_version;
}

-- `f"{n:03d}"`
unfoldable pub three_digits : ℕ → String
unfolding decimal
three_digits n =
    if ltb n 10
    then fstring ("00" ∷ decimal n ∷ [])
    else if ltb n 100
    then fstring ("0" ∷ decimal n ∷ [])
    else decimal n

-- `(session.scalar(select(func.max(seq))) or 0) + 1`
abbrev pub max_or_zero : List ℕ → ℕ
max_or_zero [] = 0
max_or_zero (n ∷ ns) = let m = max_or_zero ns in if ltb m n then n else m

-- What `_material_row` is called with.
pub record NewMaterial : Type 0 where
  pub seq : ℕ
  pub title : String
  pub summary : String
  pub source : String
  pub type : String
  pub trust_label : String

-- `_material_row`, with the identifier that the row gets and its first version.
abbrev pub new_material : Uuid → Uuid → Uuid → NewMaterial → Material
new_material tenant actor id n = record {
  id = id;
  tenant_id = tenant;
  created_by = some actor;
  updated_by = some actor;
  row_version = next_version none;
  code = fstring ("MAT-" ∷ three_digits n.seq ∷ []);
  seq = n.seq;
  title = take_text 255 n.title;
  summary = n.summary;
  source = take_text 255 n.source;
  type = take_text 32 n.type;
  trust_label = n.trust_label;
  tone = tone_or_neutral (get material_trust_tones n.trust_label);
  updated_at_label = "刚刚";
  allowed_actions = [];
}

-- What the client sent.
pub record Upload : Type 0 where
  pub filename : String
  pub content_type : String
  pub content : List ℕ
  -- `data.decode("utf-8")`, where a `UnicodeDecodeError` is `none`.
  pub decoded : Option String
  pub title : String
  pub trust_label : String

abbrev pub safe_name : String → String
safe_name filename = or_else (path_name (or_else filename "未命名文件")) "未命名文件"

unfoldable pub uploaded_material : Uuid → Uuid → Uuid → ℕ → Upload → Material
unfolding path_name stem text_preview human_size three_digits
uploaded_material tenant actor id seq u =
    let name = safe_name u.filename in
    new_material tenant actor id (record {
      seq = seq;
      title = or_else (strip u.title) (or_else (stem name) name);
      summary =
          or_else (text_preview u.decoded name)
            (fstring ("人工上传的原件：" ∷ name ∷ "（" ∷ human_size (length u.content) ∷ "）。" ∷ []));
      source = "人工上传";
      type = upload_type name;
      trust_label = strip u.trust_label;
    })

unfoldable pub uploaded_file : Uuid → Uuid → Uuid → Uuid → Upload → MaterialFile
unfolding path_name
uploaded_file tenant actor id material_id u = record {
  id = id;
  tenant_id = tenant;
  created_by = some actor;
  updated_by = some actor;
  row_version = next_version none;
  material_id = material_id;
  filename = safe_name u.filename;
  content_type = or_else u.content_type "application/octet-stream";
  byte_size = length u.content;
  content = u.content;
}

abbrev pub stored_file : Option MaterialFile → Option StoredFile
stored_file none = none
stored_file (some row) =
    some
      (record { filename = row.filename; content_type = row.content_type; content = row.content })

abbrev pub next_material_seq : List Material → ℕ
next_material_seq rows = max_or_zero (map (λ (m : Material). m.seq) rows) + 1

module _ {Db : Type 0} (store : UploadStore Db)
    (get_policy : TenantContext → Option AuthorizationPolicy) (subject : TenantContext) where
  unfoldable pub create_uploaded_material :
      Upload → Uuid → Uuid → Uuid → Db → Result (MaterialSummary × Db)
  create_uploaded_material u actor id file_id db = do
    require_create_permission get_policy subject Resource.source "create"
    raise_if (is_empty u.content) 400 "empty_file" "上传的文件为空"
    raise_if (ltb max_upload_bytes (length u.content)) 413 "file_too_large"
        (fstring ("单个文件不能超过 " ∷ decimal (max_upload_bytes / 1048576) ∷ " MB" ∷ []))
    let row =
        uploaded_material subject.tenant_id actor id
          (next_material_seq (store.materials.rows db subject.tenant_id)) u
    db₁ ← or_failure Failure.integrity_error (store.materials.insert db row)
    db₂ ←
        or_failure Failure.integrity_error
          (store.files.insert db₁ (uploaded_file subject.tenant_id actor file_id id u))
    ok (to_material get_policy subject row, db₂)

  -- The route: at most one byte more than the cap is read of the file.
  unfoldable pub upload_material :
      Option String
      → Option String
      → List ℕ
      → (List ℕ → Option String)
      → String
      → String
      → Uuid
      → Uuid
      → Uuid
      → Db
      → Result (MaterialSummary × Db)
  unfolding create_uploaded_material
  upload_material filename content_type body decode title trust_label actor id file_id db =
      let read = limit (max_upload_bytes + 1) body in
      create_uploaded_material
        (record {
          filename = given filename "未命名文件";
          content_type = given content_type "application/octet-stream";
          content = read;
          decoded = decode read;
          title = title;
          trust_label = trust_label;
        })
        actor id file_id db

  abbrev pub file_of : Option Material → Db → Result (Option StoredFile)
  file_of none db = ok none
  file_of (some material) db = do
    require_permission get_policy subject Resource.source "view" (material_board material)
    ok (
        stored_file (
          find (λ (f : MaterialFile). f.material_id == material.id)
            (store.files.rows db subject.tenant_id)))

  unfoldable pub get_material_file : String → Db → Result (Option StoredFile)
  get_material_file code db =
      file_of
        (find (λ (m : Material). store.citext_equal m.code code)
          (store.materials.rows db subject.tenant_id))
        db
