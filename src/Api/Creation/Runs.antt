-- ===== src/Api/Creation/Runs.antt =====
-- A new run: `create_content_run` of apps/api/repositories.py.
use aipy.Prelude.{
  refl, sym, ap, subst, inl, inr, Option, some, arith, ◌<◌, ◌≡◌, ◌↔◌, ◌⊎◌, find, In, find_unique,
}
use aipy.Security.{Uuid, TenantContext}
use aipy.Authorization.Policy.{AuthorizationPolicy}
use aipy.Api.Errors.{Failure, ok, >>-eq-ok, >>=-eq-ok, ok_inj, or_failure, or_failure-eq-ok}
use aipy.Api.Rows.{Time, ContentRun}
use aipy.Api.Boards.{ContentRunSummary, to_content_run}
use aipy.Api.ContentActions.{by_code}
use aipy.Api.Creation.{CreateContentRunCommand, RunStore, new_run, next_run_seq, create_content_run}
use aipy.Api.Creation.Materials.{le-max_or_zero}

module _ {Db : Type 0} (store : RunStore Db)
    (get_policy : TenantContext → Option AuthorizationPolicy) (subject : TenantContext) where
  -- A creation of a run that succeeds has added one row, in RUNNING at version 0, by the caller,
  -- numbered above all others of the tenant; it answers with that row, and the row is the one that
  -- its code finds.
  pub created_run_found :
      (command : CreateContentRunCommand) (actor id : Uuid) (now : Time) (db db' : Db)
      (summary : ContentRunSummary)
      → create_content_run store get_policy subject command actor id now db ≡ ok (summary, db')
      → (row : ContentRun) × (summary ≡ to_content_run get_policy subject row)
        × (find (by_code store.citext_equal summary.id) (store.runs.rows db' subject.tenant_id)
            ≡ some row)
        × (row.status ≡ "RUNNING")
        × (row.row_version ≡ 0)
        × (row.created_by ≡ some actor)
        × ((r : ContentRun) → In r (store.runs.rows db subject.tenant_id) → r.seq < row.seq)
        × ((r : ContentRun)
            → In r (store.runs.rows db' subject.tenant_id)
              ↔ ((r ≡ row) ⊎ In r (store.runs.rows db subject.tenant_id)))
  unfolding create_content_run new_run
  created_run_found command actor id now db db' summary h =
      let (allowed, h₁) = >>-eq-ok _ _ h in
      let row =
        new_run subject.tenant_id command actor id now
          (next_run_seq (store.runs.rows db subject.tenant_id)) (store.user db actor) in
      let (db₁, added, answer) =
        >>=-eq-ok (or_failure Failure.integrity_error (store.runs.insert db row)) _ h₁ in
      let same = ok_inj answer in
      let new : store.runs.insert db row ≡ some db' =
        subst (λ d. store.runs.insert db row ≡ some d) (ap (λ s. s.1) same)
          (or_failure-eq-ok Failure.integrity_error (store.runs.insert db row) added) in
      let shown : summary ≡ to_content_run get_policy subject row = sym (ap (λ s. s.0) same) in
      let step = store.runs.inserted db db' row new subject.tenant_id in
      let there = (step row).1 (inl (refl, refl)) in
      let found =
        find_unique (by_code store.citext_equal row.code) (store.runs.rows db' subject.tenant_id)
          row there (store.citext_refl row.code)
          (λ y k fits. store.unique_code db' subject.tenant_id y row k there fits) in
      (
        row,
        shown,
        rw shown found,
        refl,
        refl,
        refl,
        λ r k.
            let below =
              le-max_or_zero (λ (x : ContentRun). x.seq) (store.runs.rows db subject.tenant_id) r
                k in
            omega (arith, below),
        λ r. (
          λ k. elim ((step r).0 k) [ inl e ↦ inl e.0 | inr e ↦ inr e ],
          λ k. (step r).1 (elim k [ inl e ↦ inl (e, refl) | inr e ↦ inr e ]),
        ),
      )
