-- ===== src/Api/SideEffects/Dispatch.antt =====
-- What a successful action on a content run has done, state action or not.
use aipy.Prelude.{
  ℕ, String, refl, sym, ap, subst, inl, inr, not, Option, some, ◌≡◌, ◌∙◌, ◌⊎◌, ◌==◌, Bool-cases,
  not_Decides, if_true, if_false, In, contains, contains_iff, string_eq, nat_eq,
}
use aipy.Security.{Uuid, TenantContext}
use aipy.Authorization.Policy.{AuthorizationPolicy}
use aipy.Api.Errors.{ok, >>=-eq-ok, ok_inj}
use aipy.Api.Rows.{Time, ContentRun, content_run_row}
use aipy.Api.Store.Memory.{content_run_discrete}
use aipy.Api.Store.Inserts.{ContentStore}
use aipy.Api.Preconditions.{parse_expected_version}
use aipy.Api.Boards.{ContentRunSummary, to_content_run}
use aipy.Api.ContentActions.{load_run}
use aipy.Api.ContentActions.Planned.{Loaded, load_run-Loaded}
use aipy.Api.ContentActions.Outcomes.{Applied, apply_state_action-ok}
use aipy.Api.SideEffects.{
  content_side_effects, effect_of, plan_side_effect, apply_side_effect, apply_content_action,
}
use aipy.Api.SideEffects.Written.{Stored, commit_side_effect-Stored}

-- A row that is flushed is the changed one, at some version.
pub flushed_is_changed :
    {Db : Type 0} (store : ContentStore Db) (db db' : Db) (old new r : ContentRun)
    → new.row_version ≡ old.row_version
    → store.runs.flush db old new ≡ some (db', r)
    → r ≡ record new { row_version = r.row_version }
flushed_is_changed store db db' old new r version h = elim (content_run_discrete old new) [
  | yes same ↦
      let kept =
        subst (λ n. store.runs.flush db old n ≡ some (db, old)) same
          (store.runs.flush_same db old) in
      let is_new : r ≡ new = cc (h, kept, same) in rw is_new refl
  | no changed ↦
      let (is_bumped, _c, _s) = store.runs.flush_current db db' old new r changed h in
      rw is_bumped refl
]

module _ {Db : Type 0} (store : ContentStore Db)
    (get_policy : TenantContext → Option AuthorizationPolicy) (subject : TenantContext) where
  -- A side effect was permitted on the run at the version of the header; the row of the run and the
  -- added rows were stored, and the status is the one that was found.
  pub record Effected (code action : String) (if_match : Option String) (actor : Uuid)
      (ids : ℕ → Uuid) (now created_at : Time) (db : Db) (summary : ContentRunSummary) (db' : Db)
      : Type 0 where
    pub row : ContentRun
    pub expected : Option ℕ
    pub header : parse_expected_version if_match ≡ ok expected
    pub loaded : Loaded store.runs get_policy subject code action expected db row
    pub stored :
        Stored store
          (to_content_run get_policy subject)
          (effect_of store action row actor ids now created_at db)
          db
          summary
          db'
    pub status_kept : summary.status ≡ row.status

  effect_status :
      (action : String) (row : ContentRun) (actor : Uuid) (ids : ℕ → Uuid) (now created_at : Time)
      (db : Db)
      → let p = (effect_of store action row actor ids now created_at db).run in
        (p.loaded ≡ row)
        × (p.changed.row_version ≡ p.loaded.row_version)
        × (p.changed.status ≡ row.status)
  unfolding effect_of
  effect_status action row actor ids now created_at db = elim (Bool-cases (action == "export")) [
    | inl e ↦ rw e (refl, refl, refl)
    | inr e ↦ rw e (refl, refl, refl)
  ]

  pub apply_side_effect-Effected :
      (code action : String) (if_match : Option String) (actor : Uuid) (ids : ℕ → Uuid)
      (now created_at : Time) (db db' : Db) (summary : ContentRunSummary)
      → apply_side_effect store get_policy subject code action if_match actor ids now created_at db
        ≡ ok (summary, db')
      → Effected code action if_match actor ids now created_at db summary db'
  unfolding apply_side_effect plan_side_effect
  apply_side_effect-Effected code action if_match actor ids now created_at db db' summary h =
      let (e, planned, done) =
        >>=-eq-ok
          (plan_side_effect store get_policy subject code action if_match actor ids now created_at
            db)
          _ h in
      let (expected, header, h₁) = >>=-eq-ok (parse_expected_version if_match) _ planned in
      let (row, found, h₂) =
        >>=-eq-ok (load_run store.runs get_policy subject code action expected db) _ h₁ in
      let stored =
        subst (λ x. Stored store (to_content_run get_policy subject) x db summary db')
          (sym (ok_inj h₂))
          (commit_side_effect-Stored store (to_content_run get_policy subject) e db db' summary
            done) in
      let (_l, version, status) = effect_status action row actor ids now created_at db in
      let shape =
        flushed_is_changed store db stored.between _ _ stored.written version stored.flushed in
      record {
        row = row;
        expected = expected;
        header = header;
        loaded = load_run-Loaded store.runs get_policy subject code action expected db row found;
        stored = stored;
        status_kept =
            ap (λ (s : ContentRunSummary). s.status) stored.answer
            ∙ ap (λ (r : ContentRun). r.status) shape
            ∙ status;
      }

  -- An action on a content run that succeeds is an export or a collection, permitted on the run at
  -- the version of the header, which leaves the status alone and adds just the planned rows, or
  -- another action, which has found the run in the caller's tenant, taken a documented step and
  -- stored the run under the next version.
  pub apply_content_action-ok :
      (code action : String) (if_match : Option String) (actor : Uuid) (ids : ℕ → Uuid)
      (now created_at : Time) (db db' : Db) (summary : ContentRunSummary)
      → apply_content_action store get_policy subject code action if_match actor ids now created_at
          db
        ≡ ok (summary, db')
      → (In action content_side_effects
          × Effected code action if_match actor ids now created_at db summary db')
        ⊎ ((¬ In action content_side_effects)
            × Applied store.runs get_policy subject code action if_match actor db summary db')
  unfolding apply_content_action
  apply_content_action-ok code action if_match actor ids now created_at db db' summary h =
      elim (Bool-cases (contains content_side_effects action)) [
        | inl e ↦ inl (
          (contains_iff content_side_effects action).0 e,
          apply_side_effect-Effected code action if_match actor ids now created_at db db' summary
              (sym (if_true _ _ e) ∙ h),
        )
        | inr e ↦ inr (
          (not_Decides _ (contains_iff content_side_effects action)).0 (ap not e),
          apply_state_action-ok store.runs get_policy subject code action if_match actor db db'
              summary (sym (if_false _ _ e) ∙ h),
        )
      ]
