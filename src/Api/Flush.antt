-- ===== src/Api/Flush.antt =====
-- The end of a write in apps/api/repositories.py: `_flush`, and what the optimistic lock gives.
use aipy.Prelude.{
  ℕ, sym, ap, subst, inl, inr, Option, none, some, List, [], arith, ◌+◌, ◌≡◌, ◌∙◌, ◌≢◌, ◌⊎◌, ◌∷◌,
  Any-map, In, fstring,
}
use aipy.Prelude.Decimal.{decimal}
use aipy.Api.Errors.{Result, ok, ◌>>=◌, raise, >>=-eq-ok, ok_inj}
use aipy.Api.Rows.{Row}
use aipy.Api.Store.{Table, bumped, Current, Stale}

-- A row as it was loaded, and as it is to be flushed.
pub record Pending (R : Type 0) : Type 0 where
  pub loaded : R
  pub changed : R

-- `_flush`: a `StaleDataError` becomes a 409.
abbrev pub conflict : {A : Type 0} → ℕ → Result A
conflict current =
    raise 409 "version_conflict"
      (fstring ("resource changed concurrently; retry from version " ∷ decimal current ∷ []))

abbrev pub flush_or_conflict : {A : Type 0} → Option A → ℕ → Result A
flush_or_conflict none current = conflict current
flush_or_conflict (some a) current = ok a

pub flush_or_conflict-eq-ok :
    {A : Type 0} (o : Option A) (current : ℕ) {a : A}
    → flush_or_conflict o current ≡ ok a
    → o ≡ some a
flush_or_conflict-eq-ok none current h = cc
flush_or_conflict-eq-ok (some b) current h = cc

module _ {Db R S : Type 0} {row : Row R} (table : Table Db row) (shown : R → S) where
  -- The flush, and the summary of the row as the session then has it.
  unfoldable pub commit : Pending R → Db → Result (S × Db)
  commit p db = do
    (db', r) ← flush_or_conflict (table.flush db p.loaded p.changed) (row.row_version p.loaded)
    ok (shown r, db')

  -- A commit that goes through found the version that was loaded, stores the row under the next
  -- one, and answers with that row.
  pub commit-ok :
      (p : Pending R) (db db' : Db) (s : S)
      → p.loaded ≢ p.changed
      → row.tenant_id p.changed ≡ row.tenant_id p.loaded
      → commit p db ≡ ok (s, db')
      → (s ≡ shown (bumped row p.loaded p.changed))
        × Current row p.loaded (table.rows db (row.tenant_id p.loaded))
        × In (bumped row p.loaded p.changed) (table.rows db' (row.tenant_id p.loaded))
  unfolding commit
  commit-ok p db db' s changed same h =
      let (pair₁, flushed, answer) =
        >>=-eq-ok (flush_or_conflict (table.flush db p.loaded p.changed) (row.row_version p.loaded))
          _ h in
      let done = flush_or_conflict-eq-ok _ _ flushed in
      let (is_bumped, current, stored) =
        table.flush_current db pair₁.0 p.loaded p.changed pair₁.1 changed done in
      let pair = ok_inj answer in
      (
        sym (ap (λ x. x.0) pair) ∙ ap shown is_bumped,
        current,
        subst (λ d. In (bumped row p.loaded p.changed) (table.rows d (row.tenant_id p.loaded)))
            (ap (λ x. x.1) pair)
            (subst (λ x. In x (table.rows pair₁.0 (row.tenant_id p.loaded))) is_bumped
              (stored same)),
      )

  bumped_is_Stale :
      (old new : R) (rows : List R)
      → row.id new ≡ row.id old
      → In (bumped row old new) rows
      → Stale row old rows
  bumped_is_Stale old new rows same h = Any-map rows step h
    where
      step :
          (r : R)
          → bumped row old new ≡ r
          → (row.id r ≡ row.id old) × (row.row_version r ≢ row.row_version old)
      step r e =
          let version = row.version_set (row.row_version old + 1) new in
          let id = row.id_kept (row.row_version old + 1) new in
          (rw (← e) (id ∙ same), rw (← e) (λ k. omega (arith, version, k)))

  -- No update is lost: once a commit of a loaded row has gone through, every other commit of the
  -- same loaded row ends in a conflict.
  pub commit_again :
      (p q : Pending R) (db db' : Db) (s : S)
      → p.loaded ≢ p.changed
      → row.tenant_id p.changed ≡ row.tenant_id p.loaded
      → row.id p.changed ≡ row.id p.loaded
      → q.loaded ≡ p.loaded
      → q.loaded ≢ q.changed
      → commit p db ≡ ok (s, db')
      → commit q db' ≡ conflict (row.row_version p.loaded)
  unfolding commit
  commit_again p q db db' s changed tenant id same other h =
      let (shown_row, current, stored) = commit-ok p db db' s changed tenant h in
      let stale = bumped_is_Stale p.loaded p.changed _ id stored in
      let refused =
        table.flush_stale db' q.loaded q.changed other
          (subst (λ old. Stale row old (table.rows db' (row.tenant_id old))) (sym same) stale) in
      rw refused (ap (λ old. conflict (row.row_version old)) same)

-- A flush that goes through leaves the changed row, possibly under the next version.
pub flushed-stored :
    {Db R : Type 0} {row : Row R} (table : Table Db row) (same : Discrete R) (db db' : Db)
    (old new r : R)
    → In old (table.rows db (row.tenant_id old))
    → row.tenant_id new ≡ row.tenant_id old
    → table.flush db old new ≡ some (db', r)
    → ((r ≡ new) ⊎ (r ≡ bumped row old new)) × In r (table.rows db' (row.tenant_id old))
flushed-stored {row = row} table same db db' old new r there tenant h = elim (same old new) [
  | yes e ↦
      let kept = subst (λ n. table.flush db old n ≡ some (db, old)) e (table.flush_same db old) in
      let is_old : r ≡ old = cc (h, kept) in
      let is_db : db' ≡ db = cc (h, kept) in (inl (is_old ∙ e), rw (is_old, is_db) there)
  | no changed ↦
      let (is_bumped, _c, stored) = table.flush_current db db' old new r changed h in
      (inr is_bumped, stored tenant)
]
