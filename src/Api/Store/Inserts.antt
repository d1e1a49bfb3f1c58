-- ===== src/Api/Store/Inserts.antt =====
-- A table to which sessions add rows, and the tables that the actions on content runs read and
-- write together. The laws are those of primary keys, of row-level security, and of statements that
-- touch one table.
use aipy.Prelude.{String, Bool, Option, some, List, ◌≡◌, ◌↔◌, ◌⊎◌, All, In}
use aipy.Security.{Uuid}
use aipy.Api.Rows.{
  Row, ContentRun, content_run_row, material_row, ContentExport, content_export_row,
  ContentRunMaterial, run_material_row,
}
use aipy.Api.Store.{Table}

pub record Inserts (Db : Type 0) {R : Type 0} (row : Row R) : Type 0 where
  -- The rows that a session of the tenant sees.
  pub rows : Db → Uuid → List R
  -- `session.add(row)` with the flush that writes it; `none` is an `IntegrityError`.
  pub insert : Db → R → Option Db
  pub rows_scoped : (db : Db) (t : Uuid) → All (λ r. row.tenant_id r ≡ t) (rows db t)
  pub primary_key :
      (db : Db) (t : Uuid) (x y : R)
      → In x (rows db t)
      → In y (rows db t)
      → row.id x ≡ row.id y
      → x ≡ y
  pub inserted :
      (db db' : Db) (r : R)
      → insert db r ≡ some db'
      → (t : Uuid) (x : R)
      → In x (rows db' t) ↔ (((x ≡ r) × (row.tenant_id r ≡ t)) ⊎ In x (rows db t))

pub record ContentStore (Db : Type 0) : Type 0 where
  pub runs : Table Db content_run_row
  pub materials : Inserts Db material_row
  pub exports : Inserts Db content_export_row
  pub links : Inserts Db run_material_row
  -- `title ILIKE pattern ESCAPE '\'`
  pub ilike : String → String → Bool
  pub flush_frame :
      (db db' : Db) (old new r : ContentRun)
      → runs.flush db old new ≡ some (db', r)
      → (t : Uuid)
      → (materials.rows db' t ≡ materials.rows db t)
        × (exports.rows db' t ≡ exports.rows db t)
        × (links.rows db' t ≡ links.rows db t)
  pub export_frame :
      (db db' : Db) (r : ContentExport)
      → exports.insert db r ≡ some db'
      → (t : Uuid)
      → (materials.rows db' t ≡ materials.rows db t)
        × (runs.rows db' t ≡ runs.rows db t)
        × (links.rows db' t ≡ links.rows db t)
  pub link_frame :
      (db db' : Db) (r : ContentRunMaterial)
      → links.insert db r ≡ some db'
      → (t : Uuid)
      → (materials.rows db' t ≡ materials.rows db t)
        × (runs.rows db' t ≡ runs.rows db t)
        × (exports.rows db' t ≡ exports.rows db t)
