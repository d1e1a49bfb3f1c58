-- ===== src/Api/Store/Lenses.antt =====
-- A table as a part of a database.
use aipy.Prelude.{refl, ap, Option, none, some, ◌≡◌, ◌∙◌}
use aipy.Api.Rows.{Row}
use aipy.Api.Store.{Table}
use aipy.Api.Store.Inserts.{Inserts}

-- A part of a database that can be read and replaced.
pub record Part (Db Small : Type 0) : Type 0 where
  pub view : Db → Small
  pub replace : Small → Db → Db
  pub replaced : (s : Small) (db : Db) → view (replace s db) ≡ s
  pub unchanged : (db : Db) → replace (view db) db ≡ db

module _ {Db Small : Type 0} (part : Part Db Small) where
  abbrev pub replace_inserted : Db → Option Small → Option Db
  replace_inserted db none = none
  replace_inserted db (some s) = some (part.replace s db)

  pub replace_inserted-some :
      (db db' : Db) (o : Option Small)
      → replace_inserted db o ≡ some db'
      → (s : Small) × (o ≡ some s) × (db' ≡ part.replace s db)
  replace_inserted-some db db' none h = absurd cc
  replace_inserted-some db db' (some s) h = (s, refl, cc)

module _ {Db Small R : Type 0} (part : Part Db Small) where
  abbrev pub replace_flushed : Db → Option (Small × R) → Option (Db × R)
  replace_flushed db none = none
  replace_flushed db (some (s, r)) = some (part.replace s db, r)

  pub replace_flushed-some :
      (db db' : Db) (r : R) (o : Option (Small × R))
      → replace_flushed db o ≡ some (db', r)
      → (s : Small) × (o ≡ some (s, r)) × (db' ≡ part.replace s db)
  replace_flushed-some db db' r none h = absurd cc
  replace_flushed-some db db' r (some (s, x)) h = (s, ap (λ z. some (s, z)) (cc h), cc)

module _ {Db Small R : Type 0} {row : Row R} (part : Part Db Small) where
  unfoldable pub inserts_in : Inserts Small row → Inserts Db row
  inserts_in table = record {
    rows = λ db t. table.rows (part.view db) t;
    insert = λ db r. replace_inserted part db (table.insert (part.view db) r);
    rows_scoped = λ db t. table.rows_scoped (part.view db) t;
    primary_key = λ db t x y. table.primary_key (part.view db) t x y;
    inserted = λ db db' r h t x.
        let (s, done, after) =
          replace_inserted-some part db db' (table.insert (part.view db) r) h in
        let seen : part.view db' ≡ s = ap part.view after ∙ part.replaced s db in
        rw seen (table.inserted (part.view db) s r done t x);
  }

  unfoldable pub table_in : Table Small row → Table Db row
  table_in table = record {
    rows = λ db t. table.rows (part.view db) t;
    flush = λ db old new. replace_flushed part db (table.flush (part.view db) old new);
    citext_equal = table.citext_equal;
    rows_scoped = λ db t. table.rows_scoped (part.view db) t;
    flush_same = λ db r.
        ap (replace_flushed part db) (table.flush_same (part.view db) r)
        ∙ ap (λ d. some (d, r)) (part.unchanged db);
    flush_stale = λ db old new changed stale.
        ap (replace_flushed part db) (table.flush_stale (part.view db) old new changed stale);
    flush_current = λ db db' old new r changed h.
        let (s, done, after) =
          replace_flushed-some part db db' r (table.flush (part.view db) old new) h in
        let (is_bumped, current, stored) =
          table.flush_current (part.view db) s old new r changed done in
        let seen : part.view db' ≡ s = ap part.view after ∙ part.replaced s db in
        (is_bumped, current, λ tenant. rw seen (stored tenant));
  }
