-- ===== src/Api/Uploads/Store.antt =====
-- The tables that uploads write, with the unique keys of src/aipy/modules/content/models.py.
use aipy.Prelude.{String, Bool, true, some, ◌≡◌, In}
use aipy.Security.{Uuid}
use aipy.Api.Rows.{material_row, Material, MaterialFile, material_file_row}
use aipy.Api.Store.Inserts.{Inserts}

pub record UploadStore (Db : Type 0) : Type 0 where
  pub materials : Inserts Db material_row
  pub files : Inserts Db material_file_row
  -- Equality of the `CITEXT` columns, which ignores case.
  pub citext_equal : String → String → Bool
  pub citext_refl : (s : String) → citext_equal s s ≡ true
  -- `uq_material_tenant_code`
  pub unique_code :
      (db : Db) (t : Uuid) (x y : Material)
      → In x (materials.rows db t)
      → In y (materials.rows db t)
      → citext_equal x.code y.code ≡ true
      → x ≡ y
  -- `uq_material_file_material`
  pub unique_file :
      (db : Db) (t : Uuid) (x y : MaterialFile)
      → In x (files.rows db t)
      → In y (files.rows db t)
      → x.material_id ≡ y.material_id
      → x ≡ y
  pub file_frame :
      (db db' : Db) (r : MaterialFile)
      → files.insert db r ≡ some db'
      → (t : Uuid) → materials.rows db' t ≡ materials.rows db t
