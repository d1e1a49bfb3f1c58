-- ===== src/Api/Store/Memory.antt =====
-- A table in memory: a list of rows of all tenants, which behaves as the interface asks. It shows
-- that the laws can hold, and the tests run the handlers of apps/api/repositories.py on it.
use aipy.Prelude.{
  String, refl, sym, subst, inl, inr, Bool, true, false, not, Option, none, some, List, [], map,
  arith, eq_iff, ℕ_discrete, ◌+◌, ◌≡◌, ◌∙◌, ◌≢◌, ◌&&◌, ◌∷◌, ◌==◌, if◌then◌else◌, nat_beq_iff,
  Bool-cases, Decides, and_Decides, not_Decides, any, keep, All, In, any_iff, string_eq, nat_eq,
}
use mathlib.Core.Logic.{ite, if_neg, if_pos}
use aipy.Security.{Uuid}
use aipy.Api.Rows.{Row, content_run_row, human_task_row, HumanTask, ContentRun}
use aipy.Api.Store.{bumped, Current, Stale, Table}

unfoldable pub string_discrete : Discrete String
string_discrete a b = decided (a == b) refl
  where
    decided : (test : Bool) → (a == b) ≡ test → Dec (a ≡ b)
    decided true e = yes ((eq_iff a b).0 e)
    decided false e = no (λ h. cc ((eq_iff a b).1 h, e))

module _ {R : Type 0} (row : Row R) (same : Discrete R) where
  abbrev pub rows_of : List R → Uuid → List R
  rows_of db t = keep (λ r. row.tenant_id r == t) db

  unfoldable pub overwrite : R → R → R → R
  overwrite old new r =
      if row.tenant_id r == row.tenant_id old && row.id r == row.id old
      then bumped row old new
      else r

  abbrev stale_row : R → R → Bool
  stale_row old r = row.id r == row.id old && not (row.row_version r == row.row_version old)

  abbrev current_row : R → R → Bool
  current_row old r = row.id r == row.id old && row.row_version r == row.row_version old

  unfoldable pub write : List R → R → R → Option (List R × R)
  unfolding overwrite
  write db old new =
      if any (stale_row old) (rows_of db (row.tenant_id old))
      then none
      else if any (current_row old) (rows_of db (row.tenant_id old))
      then some (map (overwrite old new) db, bumped row old new)
      else none

  unfoldable pub flush_rows : List R → R → R → Option (List R × R)
  unfolding write
  flush_rows db old new = ite (same old new) (some (db, old)) (write db old new)

  pub rows_of-scoped : (db : List R) (t : Uuid) → All (λ r. row.tenant_id r ≡ t) (rows_of db t)
  rows_of-scoped [] t = tt
  rows_of-scoped (r ∷ db) t = elim (Bool-cases (row.tenant_id r == t)) [
    | inl hit ↦ rw hit ((nat_beq_iff (row.tenant_id r) t).0 hit, rows_of-scoped db t)
    | inr miss ↦ rw miss (rows_of-scoped db t)
  ]

  stale_row_iff : (old : R) (db : List R) → Decides (any (stale_row old) db) (Stale row old db)
  stale_row_iff old db =
      any_iff _ db (λ r. and_Decides _ _ (nat_beq_iff _ _) (not_Decides _ (nat_beq_iff _ _)))

  current_row_iff :
      (old : R) (db : List R) → Decides (any (current_row old) db) (Current row old db)
  current_row_iff old db = any_iff _ db (λ r. and_Decides _ _ (nat_beq_iff _ _) (nat_beq_iff _ _))

  pub flush_rows-changed :
      (db : List R) (old new : R) → old ≢ new → flush_rows db old new ≡ write db old new
  unfolding flush_rows
  flush_rows-changed db old new changed = if_neg (same old new) changed _ _

  pub flush_rows-same : (db : List R) (r : R) → flush_rows db r r ≡ some (db, r)
  unfolding flush_rows
  flush_rows-same db r = if_pos (same r r) refl _ _

  pub write-Stale :
      (db : List R) (old new : R)
      → Stale row old (rows_of db (row.tenant_id old))
      → write db old new ≡ none
  unfolding write
  write-Stale db old new stale =
      rw ((stale_row_iff old (rows_of db (row.tenant_id old))).1 stale) refl

  pub write-some :
      (db db' : List R) (old new r : R)
      → write db old new ≡ some (db', r)
      → (r ≡ bumped row old new)
        × (db' ≡ map (overwrite old new) db)
        × Current row old (rows_of db (row.tenant_id old))
  unfolding write
  write-some db db' old new r h =
      elim (Bool-cases (any (stale_row old) (rows_of db (row.tenant_id old)))) [
        | inl e ↦ cc
        | inr e ↦ elim (Bool-cases (any (current_row old) (rows_of db (row.tenant_id old)))) [
          | inl k ↦ (cc, cc, (current_row_iff old _).0 k)
          | inr k ↦ cc
        ]
      ]

  overwrite-tenant :
      (old new r : R)
      → row.tenant_id new ≡ row.tenant_id old
      → row.tenant_id (overwrite old new r) ≡ row.tenant_id r
  unfolding overwrite
  overwrite-tenant old new r tenant =
      let kept = row.tenant_kept (row.row_version old + 1) new in
      elim (Bool-cases (row.tenant_id r == row.tenant_id old && row.id r == row.id old)) [
        | inl e ↦ rw e (ground (arith, kept, tenant))
        | inr e ↦ rw e refl
      ]

  overwrite-hit :
      (old new r : R)
      → row.tenant_id r ≡ row.tenant_id old
      → row.id r ≡ row.id old
      → overwrite old new r ≡ bumped row old new
  unfolding overwrite
  overwrite-hit old new r tenant id = rw ((nat_beq_iff _ _).1 tenant, (nat_beq_iff _ _).1 id) refl

  pub written_is_stored :
      (old new : R) (db : List R)
      → row.tenant_id new ≡ row.tenant_id old
      → Current row old (rows_of db (row.tenant_id old))
      → In (bumped row old new) (rows_of (map (overwrite old new) db) (row.tenant_id old))
  written_is_stored old new [] tenant h = h
  written_is_stored old new (r ∷ db) tenant h =
      let kept = overwrite-tenant old new r tenant in
      let rest = written_is_stored old new db tenant in
      elim (Bool-cases (row.tenant_id r == row.tenant_id old)) [
        | inl hit ↦
            elim (subst
              (λ b.
                Current row old (
                  if b then r ∷ rows_of db (row.tenant_id old) else rows_of db (row.tenant_id old)))
              hit h) [
                | inl e ↦
                    rw (kept, hit)
                      (inl (sym (overwrite-hit old new r ((nat_beq_iff _ _).0 hit) e.0)))
                | inr e ↦ rw (kept, hit) (inr (rest e))
              ]
        | inr miss ↦
            rw (kept, miss)
              (rest (
                subst
                  (λ b. Current row old (
                    if b
                    then r ∷ rows_of db (row.tenant_id old)
                    else rows_of db (row.tenant_id old)))
                  miss h))
      ]

  unfoldable pub memory : (String → String → Bool) → Table (List R) row
  unfolding flush_rows
  memory equal = record {
    rows = rows_of;
    flush = flush_rows;
    citext_equal = equal;
    rows_scoped = rows_of-scoped;
    flush_same = flush_rows-same;
    flush_stale = λ db old new changed stale.
        flush_rows-changed db old new changed ∙ write-Stale db old new stale;
    flush_current = λ db db' old new r changed h.
        let (is_bumped, after, current) =
          write-some db db' old new r (sym (flush_rows-changed db old new changed) ∙ h) in
        (
          is_bumped,
          current,
          λ tenant.
              subst (λ x. In x (rows_of db' (row.tenant_id old))) (sym is_bumped)
                (subst (λ d. In (bumped row old new) (rows_of d (row.tenant_id old))) (sym after)
                  (written_is_stored old new db tenant current)),
        );
  }

unfoldable pub content_run_discrete : Discrete ContentRun
content_run_discrete = hlevel (ℕ_discrete, string_discrete)

unfoldable pub human_task_discrete : Discrete HumanTask
human_task_discrete = hlevel (ℕ_discrete, string_discrete)
