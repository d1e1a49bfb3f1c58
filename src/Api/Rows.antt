-- ===== src/Api/Rows.antt =====
-- The rows of src/aipy/modules/content/models.py with the columns that they inherit from
-- src/aipy/shared/db/mixins.py. `created_at` and `updated_at` are written by the database alone and
-- are left out. A `datetime` is a number of microseconds.
use aipy.Prelude.{ℕ, String, refl, Option, none, some, List, ◌+◌, ◌≡◌}
use aipy.Security.{Uuid}

abbrev pub Time : Type 0
Time = ℕ

-- `version_id_generator` of `OptimisticLockMixin`
abbrev pub next_version : Option ℕ → ℕ
next_version none = 0
next_version (some current) = current + 1

-- What the mixins give every tenant-owned entity.
pub record Row (R : Type 0) : Type 0 where
  pub id : R → Uuid
  pub tenant_id : R → Uuid
  pub row_version : R → ℕ
  pub with_version : ℕ → R → R
  pub id_kept : (v : ℕ) (r : R) → id (with_version v r) ≡ id r
  pub tenant_kept : (v : ℕ) (r : R) → tenant_id (with_version v r) ≡ tenant_id r
  pub version_set : (v : ℕ) (r : R) → row_version (with_version v r) ≡ v

pub record ContentRun : Type 0 where
  pub id : Uuid
  pub tenant_id : Uuid
  pub created_by : Option Uuid
  pub updated_by : Option Uuid
  pub row_version : ℕ
  pub code : String
  pub seq : ℕ
  pub title : String
  pub brand : String
  pub stage_label : String
  pub status_label : String
  pub status : String
  pub tone : String
  pub owner : String
  pub content : Option String
  pub exported_at : Option Time
  pub updated_at_label : String
  pub allowed_actions : List String

instance abbrev pub content_run_row : Row ContentRun
content_run_row = record {
  id = λ r. r.id;
  tenant_id = λ r. r.tenant_id;
  row_version = λ r. r.row_version;
  with_version = λ v r. record r { row_version = v };
  id_kept = λ v r. refl;
  tenant_kept = λ v r. refl;
  version_set = λ v r. refl;
}

pub record HumanTask : Type 0 where
  pub id : Uuid
  pub tenant_id : Uuid
  pub created_by : Option Uuid
  pub updated_by : Option Uuid
  pub row_version : ℕ
  pub code : String
  pub seq : ℕ
  pub title : String
  pub type : String
  pub reason : String
  pub priority : String
  pub brand : String
  pub owner : String
  pub due_label : String
  pub status : String
  pub decision : Option String
  pub assignee_id : Option Uuid
  pub lease_expires_at : Option Time
  pub allowed_actions : List String

instance abbrev pub human_task_row : Row HumanTask
human_task_row = record {
  id = λ r. r.id;
  tenant_id = λ r. r.tenant_id;
  row_version = λ r. r.row_version;
  with_version = λ v r. record r { row_version = v };
  id_kept = λ v r. refl;
  tenant_kept = λ v r. refl;
  version_set = λ v r. refl;
}

pub record Material : Type 0 where
  pub id : Uuid
  pub tenant_id : Uuid
  pub created_by : Option Uuid
  pub updated_by : Option Uuid
  pub row_version : ℕ
  pub code : String
  pub seq : ℕ
  pub title : String
  pub summary : String
  pub source : String
  pub type : String
  pub trust_label : String
  pub tone : String
  pub updated_at_label : String
  pub allowed_actions : List String

instance abbrev pub material_row : Row Material
material_row = record {
  id = λ r. r.id;
  tenant_id = λ r. r.tenant_id;
  row_version = λ r. r.row_version;
  with_version = λ v r. record r { row_version = v };
  id_kept = λ v r. refl;
  tenant_kept = λ v r. refl;
  version_set = λ v r. refl;
}

-- Of this row the creation time is read.
pub record ContentExport : Type 0 where
  pub id : Uuid
  pub tenant_id : Uuid
  pub created_at : Time
  pub created_by : Option Uuid
  pub updated_by : Option Uuid
  pub row_version : ℕ
  pub run_id : Uuid
  pub run_code : String
  pub format : String
  pub title : String
  pub payload : String

instance abbrev pub content_export_row : Row ContentExport
content_export_row = record {
  id = λ r. r.id;
  tenant_id = λ r. r.tenant_id;
  row_version = λ r. r.row_version;
  with_version = λ v r. record r { row_version = v };
  id_kept = λ v r. refl;
  tenant_kept = λ v r. refl;
  version_set = λ v r. refl;
}

pub record ContentRunMaterial : Type 0 where
  pub id : Uuid
  pub tenant_id : Uuid
  pub created_by : Option Uuid
  pub updated_by : Option Uuid
  pub row_version : ℕ
  pub run_id : Uuid
  pub material_id : Uuid

instance abbrev pub run_material_row : Row ContentRunMaterial
run_material_row = record {
  id = λ r. r.id;
  tenant_id = λ r. r.tenant_id;
  row_version = λ r. r.row_version;
  with_version = λ v r. record r { row_version = v };
  id_kept = λ v r. refl;
  tenant_kept = λ v r. refl;
  version_set = λ v r. refl;
}

-- The original bytes behind an uploaded material; `content` is the column `data`.
pub record MaterialFile : Type 0 where
  pub id : Uuid
  pub tenant_id : Uuid
  pub created_by : Option Uuid
  pub updated_by : Option Uuid
  pub row_version : ℕ
  pub material_id : Uuid
  pub filename : String
  pub content_type : String
  pub byte_size : ℕ
  pub content : List ℕ

instance abbrev pub material_file_row : Row MaterialFile
material_file_row = record {
  id = λ r. r.id;
  tenant_id = λ r. r.tenant_id;
  row_version = λ r. r.row_version;
  with_version = λ v r. record r { row_version = v };
  id_kept = λ v r. refl;
  tenant_kept = λ v r. refl;
  version_set = λ v r. refl;
}
