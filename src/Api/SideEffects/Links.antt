-- ===== src/Api/SideEffects/Links.antt =====
-- `link_material_to_run` of apps/api/repositories.py may be repeated.
use aipy.Prelude.{
  String, refl, sym, subst, inl, inr, Option, some, [], ◌≡◌, ◌∙◌, ◌∷◌, ◌==◌, if◌then◌else◌,
  nat_beq_iff, Bool-cases, Decides, if_true, if_false, any, find, Any, Any-map, any_iff, Any-keep,
  Any-witness, In-Any, string_eq, nat_eq,
}
use aipy.Security.{Uuid, TenantContext}
use aipy.Authorization.Policy.{AuthorizationPolicy}
use aipy.Api.Errors.{ok, or_raise, or_raise-eq-ok, >>=-eq-ok, >>-eq-ok, ok_inj}
use aipy.Api.Preconditions.{Resource, require_permission}
use aipy.Api.Boards.{ContentRunSummary, run_board, to_content_run}
use aipy.Api.ContentActions.{by_code}
use aipy.Api.SideEffects.Written.{Added, commit_side_effect-Stored}
use aipy.Api.Rows.{Material, ContentRunMaterial}
use aipy.Api.Store.Inserts.{ContentStore}
use aipy.Api.SideEffects.{links_of_run, link_of, SideEffect, plan_link, commit_side_effect}

module _ {Db : Type 0} (store : ContentStore Db) where
  -- The row is a link between the run and the material.
  abbrev pub Links : Uuid → Uuid → ContentRunMaterial → Type 0
  Links run_id material_id l = (l.run_id ≡ run_id) × (l.material_id ≡ material_id)

  links_of_run_iff :
      (tenant run_id material_id : Uuid) (db : Db)
      → Decides
          (any
            (λ (l : ContentRunMaterial). l.material_id == material_id)
            (links_of_run store tenant run_id db))
          (Any (Links run_id material_id) (store.links.rows db tenant))
  links_of_run_iff tenant run_id material_id db =
      let rows = store.links.rows db tenant in
      let found =
        any_iff (λ (l : ContentRunMaterial). l.material_id == material_id)
          (links_of_run store tenant run_id db) (λ l. nat_beq_iff l.material_id material_id) in
      let kept =
        Any-keep (λ (l : ContentRunMaterial). l.material_id ≡ material_id)
          (λ (l : ContentRunMaterial). l.run_id == run_id) rows in
      (
        λ h. Any-map rows (λ l k. ((nat_beq_iff l.run_id run_id).0 k.0, k.1)) (kept.0 (found.0 h)),
        λ h. found.1 (kept.1 (Any-map rows (λ l k. ((nat_beq_iff l.run_id run_id).1 k.0, k.1)) h)),
      )

  module _ (get_policy : TenantContext → Option AuthorizationPolicy) (subject : TenantContext) where
    -- What a planned link rests on: the two rows, and the new link unless there is one.
    pub record Chosen (code material_code : String) (actor id : Uuid) (db : Db) (e : SideEffect)
        : Type 0 where
      pub material : Material
      pub run_found :
          find (by_code store.runs.citext_equal code) (store.runs.rows db subject.tenant_id)
          ≡ some e.run.loaded
      pub material_found :
          find
            (λ (m : Material). store.runs.citext_equal m.code material_code)
            (store.materials.rows db subject.tenant_id)
          ≡ some material
      pub added : e.links ≡ (
          if any
            (λ (l : ContentRunMaterial). l.material_id == material.id)
            (links_of_run store subject.tenant_id e.run.loaded.id db)
          then []
          else link_of subject.tenant_id e.run.loaded material.id actor (some actor) id ∷ [])

    pub plan_link-Chosen :
        (code material_code : String) (actor id : Uuid) (db : Db) (e : SideEffect)
        → plan_link store get_policy subject code material_code actor id db ≡ ok e
        → Chosen code material_code actor id db e
    unfolding plan_link
    plan_link-Chosen code material_code actor id db e h =
        let (run, found, h₁) =
          >>=-eq-ok
            (or_raise
              (find (by_code store.runs.citext_equal code) (store.runs.rows db subject.tenant_id)) _
              _ _)
            _ h in
        let (material, known, h₂) =
          >>=-eq-ok
            (or_raise
              (find (λ (m : Material). store.runs.citext_equal m.code material_code)
                (store.materials.rows db subject.tenant_id))
              _ _ _)
            _ h₁ in
        let (_p, h₃) =
          >>-eq-ok
            (require_permission get_policy subject Resource.content "collect" (run_board run)) _
            h₂ in
        subst (Chosen code material_code actor id db) (ok_inj h₃) (record {
          material = material;
          run_found = or_raise-eq-ok _ _ _ _ found;
          material_found = or_raise-eq-ok _ _ _ _ known;
          added = refl;
        })

    -- Once a material has been linked to a run, linking it again plans no further link, provided
    -- the code still finds the same run.
    pub link_material_again :
        (code material_code : String) (actor actor' id id' : Uuid) (db db' : Db) (e e' : SideEffect)
        (summary : ContentRunSummary)
        → plan_link store get_policy subject code material_code actor id db ≡ ok e
        → commit_side_effect store (to_content_run get_policy subject) e db ≡ ok (summary, db')
        → plan_link store get_policy subject code material_code actor' id' db' ≡ ok e'
        → e'.run.loaded.id ≡ e.run.loaded.id
        → e'.links ≡ []
    link_material_again code material_code actor actor' id id' db db' e e' summary h done h' same =
        let first = plan_link-Chosen code material_code actor id db e h in
        let second = plan_link-Chosen code material_code actor' id' db' e' h' in
        let stored =
          commit_side_effect-Stored store (to_content_run get_policy subject) e db db' summary
            done in
        let found =
          subst
            (λ ms.
              find (λ (m : Material). store.runs.citext_equal m.code material_code) ms
              ≡ some second.material)
            (stored.materials subject.tenant_id) second.material_found in
        let material : first.material ≡ second.material = cc (found, first.material_found) in
        let again = links_of_run_iff subject.tenant_id e'.run.loaded.id second.material.id db' in
        let before = links_of_run_iff subject.tenant_id e.run.loaded.id first.material.id db in
        let linked : Any (Links e.run.loaded.id first.material.id)
            (store.links.rows db' subject.tenant_id) =
          elim (Bool-cases (
            any (λ (l : ContentRunMaterial). l.material_id == first.material.id)
              (links_of_run store subject.tenant_id e.run.loaded.id db))) [
                | inl k ↦
                    let (l, there, p) =
                      Any-witness (store.links.rows db subject.tenant_id) (before.0 k) in
                    In-Any (Links e.run.loaded.id first.material.id)
                      (store.links.rows db' subject.tenant_id) l
                      ((stored.links subject.tenant_id l).1 (inr there)) p
                | inr k ↦
                    let one = first.added ∙ if_false _ _ k in
                    let new =
                      link_of subject.tenant_id e.run.loaded first.material.id actor (some actor)
                        id in
                    In-Any (Links e.run.loaded.id first.material.id)
                      (store.links.rows db' subject.tenant_id) new
                      ((stored.links subject.tenant_id new).1 (
                        inl (
                          subst (λ ls. Added store.links ls subject.tenant_id new) (sym one)
                            (inl (refl, refl)))))
                      (refl, refl)
              ] in
        second.added ∙ if_true _ _ (again.1 (rw (same, ← material) linked))
