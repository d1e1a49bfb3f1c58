-- ===== src/Api/SideEffects/Written.antt =====
-- What a commit of a side effect leaves in the tables: `_flush` with added rows.
use aipy.Prelude.{
  sym, ap, subst, inl, inr, Option, none, some, List, [], ◌≡◌, ◌∙◌, ◌↔◌, ◌⊎◌, ◌∷◌, Option-cases,
  Any, In,
}
use aipy.Security.{Uuid}
use aipy.Api.Errors.{Failure, Result, ok, err, >>=-eq-ok, ok_inj}
use aipy.Api.Rows.{Row, ContentRun, content_run_row, ContentExport, ContentRunMaterial}
use aipy.Api.Store.Inserts.{Inserts, ContentStore}
use aipy.Api.Flush.{commit, flush_or_conflict, flush_or_conflict-eq-ok}
use aipy.Api.SideEffects.{SideEffect, insert_all, commit_side_effect}

module _ {Db R : Type 0} {row : Row R} (table : Inserts Db row) where
  -- The row is one of those that were added, in its own tenant.
  abbrev pub Added : List R → Uuid → R → Type 0
  Added rs t x = Any (λ r. (x ≡ r) × (row.tenant_id r ≡ t)) rs

  pub insert_all-first :
      (r : R) (rs : List R) (db db' : Db)
      → insert_all table (r ∷ rs) db ≡ ok db'
      → (db₁ : Db) × (table.insert db r ≡ some db₁) × (insert_all table rs db₁ ≡ ok db')
  insert_all-first r rs db db' h = elim (Option-cases (table.insert db r)) [
    | inl e ↦ cc
    | inr (db₁, e) ↦ (db₁, e, subst (λ o. step o ≡ ok db') e h)
  ]
    where
      step : Option Db → Result Db
      step none = err Failure.integrity_error
      step (some db₁) = insert_all table rs db₁

  pub insert_all-rows :
      (rs : List R) (db db' : Db)
      → insert_all table rs db ≡ ok db'
      → (t : Uuid) (x : R) → In x (table.rows db' t) ↔ (Added rs t x ⊎ In x (table.rows db t))
  insert_all-rows [] db db' h t x =
      subst (λ d. In x (table.rows d t) ↔ (⊥ ⊎ In x (table.rows db t))) (ok_inj h)
        (λ k. inr k, λ k. elim k [ inl e ↦ absurd e | inr e ↦ e ])
  insert_all-rows (r ∷ rs) db db' h t x =
      let (db₁, first, rest) = insert_all-first r rs db db' h in
      let one = table.inserted db db₁ r first t x in
      let more = insert_all-rows rs db₁ db' rest t x in
      (
        λ k. elim (more.0 k) [
          | inl e ↦ inl (inr e)
          | inr e ↦ elim (one.0 e) [ inl f ↦ inl (inl f) | inr f ↦ inr f ]
        ],
        λ k. elim k [
          | inl (inl e) ↦ more.1 (inr (one.1 (inl e)))
          | inl (inr e) ↦ more.1 (inl e)
          | inr e ↦ more.1 (inr (one.1 (inr e)))
        ],
      )

  -- What every insertion keeps, all of them keep.
  pub insert_all-keeps :
      {X : Type 0} (view : Db → X)
      → ((db db' : Db) (r : R) → table.insert db r ≡ some db' → view db' ≡ view db)
      → (rs : List R) (db db' : Db) → insert_all table rs db ≡ ok db'
      → view db' ≡ view db
  insert_all-keeps view kept [] db db' h = ap view (sym (ok_inj h))
  insert_all-keeps view kept (r ∷ rs) db db' h =
      let (db₁, first, rest) = insert_all-first r rs db db' h in
      insert_all-keeps view kept rs db₁ db' rest ∙ kept db db₁ r first

module _ {Db S : Type 0} (store : ContentStore Db) (shown : ContentRun → S) where
  -- The run was flushed under the optimistic lock, its row is shown, and the added rows are there.
  pub record Stored (e : SideEffect) (db : Db) (s : S) (db' : Db) : Type 0 where
    pub written : ContentRun
    pub between : Db
    pub flushed : store.runs.flush db e.run.loaded e.run.changed ≡ some (between, written)
    pub answer : s ≡ shown written
    pub runs : (t : Uuid) → store.runs.rows db' t ≡ store.runs.rows between t
    pub materials : (t : Uuid) → store.materials.rows db' t ≡ store.materials.rows db t
    pub exports :
        (t : Uuid) (x : ContentExport)
        → In x (store.exports.rows db' t)
          ↔ (Added store.exports e.exports t x ⊎ In x (store.exports.rows db t))
    pub links :
        (t : Uuid) (x : ContentRunMaterial)
        → In x (store.links.rows db' t)
          ↔ (Added store.links e.links t x ⊎ In x (store.links.rows db t))

  pub commit_side_effect-Stored :
      (e : SideEffect) (db db' : Db) (s : S)
      → commit_side_effect store shown e db ≡ ok (s, db')
      → Stored e db s db'
  unfolding commit_side_effect commit
  commit_side_effect-Stored e db db' s h =
      let ((s₁, db₁), first, h₁) = >>=-eq-ok (commit store.runs shown e.run db) _ h in
      let ((db₀, r), flushed, answer) =
        >>=-eq-ok
          (flush_or_conflict (store.runs.flush db e.run.loaded e.run.changed)
            e.run.loaded.row_version)
          _ first in
      let done = flush_or_conflict-eq-ok _ _ flushed in
      let (db₂, second, h₂) = >>=-eq-ok (insert_all store.exports e.exports db₁) _ h₁ in
      let (db₃, third, last) = >>=-eq-ok (insert_all store.links e.links db₂) _ h₂ in
      let between : db₁ ≡ db₀ = sym (ap (λ x. x.1) (ok_inj answer)) in
      let final : db' ≡ db₃ = sym (ap (λ x. x.1) (ok_inj last)) in
      let frame = λ (t : Uuid). store.flush_frame db db₀ e.run.loaded e.run.changed r done t in
      let second' = subst (λ d. insert_all store.exports e.exports d ≡ ok db₂) between second in
      let third' = subst (λ d. insert_all store.links e.links db₂ ≡ ok d) (sym final) third in
      record {
        written = r;
        between = db₀;
        flushed = done;
        answer = cc (ok_inj last, ok_inj answer);
        runs = λ t.
            insert_all-keeps store.links (λ d. store.runs.rows d t)
              (λ d d' l k. (store.link_frame d d' l k t).1) e.links db₂ db' third'
            ∙ insert_all-keeps store.exports (λ d. store.runs.rows d t)
                (λ d d' l k. (store.export_frame d d' l k t).1) e.exports db₀ db₂ second';
        materials = λ t.
            insert_all-keeps store.links (λ d. store.materials.rows d t)
              (λ d d' l k. (store.link_frame d d' l k t).0) e.links db₂ db' third'
            ∙ insert_all-keeps store.exports (λ d. store.materials.rows d t)
                (λ d d' l k. (store.export_frame d d' l k t).0) e.exports db₀ db₂ second'
            ∙ (frame t).0;
        exports = λ t x.
            let same =
              insert_all-keeps store.links (λ d. store.exports.rows d t)
                (λ d d' l k. (store.link_frame d d' l k t).2) e.links db₂ db' third' in
            rw (same, sym (frame t).1)
              (insert_all-rows store.exports e.exports db₀ db₂ second' t x);
        links = λ t x.
            let same =
              insert_all-keeps store.exports (λ d. store.links.rows d t)
                (λ d d' l k. (store.export_frame d d' l k t).2) e.exports db₀ db₂ second'
              ∙ (frame t).2 in
            rw (← same) (insert_all-rows store.links e.links db₂ db' third' t x);
      }
