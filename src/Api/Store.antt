-- ===== src/Api/Store.antt =====
-- What the repositories ask of SQLAlchemy and PostgreSQL, which are not part of the repository:
-- the rows that a tenant's session sees, and the flush of a changed row under the optimistic lock.
-- The laws are those that SQLAlchemy documents for `version_id_col`, and row-level security.
pub mod Memory
pub mod Inserts
pub mod Lists
pub mod Lenses
pub mod Tables
pub mod Slots
use aipy.Prelude.{String, Bool, Option, none, some, List, ◌≡◌, ◌≢◌, All, Any, In}
use aipy.Security.{Uuid}
use aipy.Api.Rows.{Row, next_version}

module _ {R : Type 0} (row : Row R) where
  -- The row that an UPDATE leaves: the version generator is applied to the version that was read.
  abbrev pub bumped : R → R → R
  bumped old new = row.with_version (next_version (some (row.row_version old))) new

  -- The row is stored, at the version at which it was read.
  abbrev pub Current : R → List R → Type 0
  Current old rows =
      Any (λ r. (row.id r ≡ row.id old) × (row.row_version r ≡ row.row_version old)) rows

  -- The row is stored, at another version than it was read at.
  abbrev pub Stale : R → List R → Type 0
  Stale old rows =
      Any (λ r. (row.id r ≡ row.id old) × (row.row_version r ≢ row.row_version old)) rows

pub record Table (Db : Type 0) {R : Type 0} (row : Row R) : Type 0 where
  -- The rows that a session of the tenant sees, in the order of an unordered query.
  pub rows : Db → Uuid → List R
  -- `session.flush()` of a row that was loaded as the first and changed to the second: the
  -- database after it, and the row as the session then has it. `none` is a `StaleDataError`.
  pub flush : Db → R → R → Option (Db × R)
  -- Equality of the `CITEXT` columns, which ignores case.
  pub citext_equal : String → String → Bool
  -- Row-level security.
  pub rows_scoped : (db : Db) (t : Uuid) → All (λ r. row.tenant_id r ≡ t) (rows db t)
  -- A row without a net change is not written.
  pub flush_same : (db : Db) (r : R) → flush db r r ≡ some (db, r)
  -- A write under a version that is no longer stored matches no row.
  pub flush_stale :
      (db : Db) (old new : R)
      → old ≢ new
      → Stale row old (rows db (row.tenant_id old))
      → flush db old new ≡ none
  -- A write that goes through found the version that was read, and stores the next one.
  pub flush_current :
      (db db' : Db) (old new r : R)
      → old ≢ new
      → flush db old new ≡ some (db', r)
      → (r ≡ bumped row old new)
        × Current row old (rows db (row.tenant_id old))
        × (row.tenant_id new ≡ row.tenant_id old → In r (rows db' (row.tenant_id old)))
