-- ===== src/Api/SideEffects/Collected.antt =====
-- What `_collect_materials` of apps/api/repositories.py links to a run.
use aipy.Prelude.{
  ℕ, refl, sym, subst, inl, inr, true, List, [], arith, ◌+◌, ◌≤◌, ◌≡◌, ◌↔◌, ◌⊎◌, ◌&&◌, ◌∷◌, ◌==◌,
  nat_beq_iff, Bool-cases, Decides, or_Decides, and_Decides, id_Decides, length, keep, All, Any,
  Any-map, In, In-map-keep, contains, contains_iff, Any-keep, fstring, string_eq, nat_eq,
}
use aipy.Prelude.Sorting.{
  order_by, Any-limit, Any-order_by, length-limit, order_by-Any, limit_all, length-order_by,
}
use aipy.Security.{Uuid}
use aipy.Api.Rows.{ContentRun, Material, ContentRunMaterial}
use aipy.Api.Store.Inserts.{ContentStore}
use aipy.Api.SideEffects.{
  mentions, matching_materials, existing_materials, collect_links, collect_materials, escape_like,
}

collect_links_iff :
    (row : ContentRun) (actor : Uuid) (ids : ℕ → Uuid) (n : ℕ) (existing : List Uuid)
    (ms : List Material) (m : Uuid)
    → Any
        (λ (l : ContentRunMaterial). l.material_id ≡ m)
        (collect_links row actor ids n existing ms)
      ↔ Any (λ (x : Material). (x.id ≡ m) × (¬ In m existing)) ms
unfolding collect_links
collect_links_iff row actor ids n existing [] m = (λ h. h, λ h. h)
collect_links_iff row actor ids n existing (x ∷ xs) m =
    let known = contains_iff existing x.id in
    elim (Bool-cases (contains existing x.id)) [
      | inl e ↦
          let ih = collect_links_iff row actor ids n existing xs m in
          rw e (
            λ h. inr (ih.0 h),
            λ h. elim h [
              | inl k ↦ absurd (k.1 (subst (λ i. In i existing) k.0 (known.0 e)))
              | inr k ↦ ih.1 k
            ],
          )
      | inr e ↦
          let ih = collect_links_iff row actor ids (n + 1) existing xs m in
          rw e (
            λ h. elim h [
              | inl k ↦ inl (k, λ i. cc (known.1 (subst (λ j. In j existing) (sym k) i), e))
              | inr k ↦ inr (ih.0 k)
            ],
            λ h. elim h [ inl k ↦ inl k.0 | inr k ↦ inr (ih.1 k) ],
          )
    ]

collect_links_of :
    (row : ContentRun) (actor : Uuid) (ids : ℕ → Uuid) (n : ℕ) (existing : List Uuid)
    (ms : List Material)
    → All
        (λ (l : ContentRunMaterial). (l.run_id ≡ row.id) × (l.tenant_id ≡ row.tenant_id))
        (collect_links row actor ids n existing ms)
unfolding collect_links
collect_links_of row actor ids n existing [] = tt
collect_links_of row actor ids n existing (x ∷ xs) = elim (Bool-cases (contains existing x.id)) [
  | inl e ↦ rw e (collect_links_of row actor ids n existing xs)
  | inr e ↦ rw e ((refl, refl), collect_links_of row actor ids (n + 1) existing xs)
]

collect_links_count :
    (row : ContentRun) (actor : Uuid) (ids : ℕ → Uuid) (n : ℕ) (existing : List Uuid)
    (ms : List Material)
    → length (collect_links row actor ids n existing ms) ≤ length ms
unfolding collect_links
collect_links_count row actor ids n existing [] = omega arith
collect_links_count row actor ids n existing (x ∷ xs) = elim (Bool-cases (contains existing x.id)) [
  | inl e ↦ rw e (omega (arith, collect_links_count row actor ids n existing xs))
  | inr e ↦ rw e (omega (arith, collect_links_count row actor ids (n + 1) existing xs))
]

Any-const : {A C : Type 0} {P : A → Type 0} (xs : List A) → ((x : A) → P x → C) → Any P xs → C
Any-const (x ∷ xs) f (inl h) = f x h
Any-const (x ∷ xs) f (inr h) = Any-const xs f h
Any-const [] f h = elim h [ ]

module _ {Db : Type 0} (store : ContentStore Db) where
  -- The material stands in the tenant, and its title or summary is like the brand of the run, or its
  -- title like the title of the run.
  pub record Mentions (row : ContentRun) (m : Material) : Type 0 where
    pub in_tenant : m.tenant_id ≡ row.tenant_id
    pub alike :
        (store.ilike m.title (fstring ("%" ∷ escape_like row.brand ∷ "%" ∷ [])) ≡ true)
        ⊎ ((store.ilike m.summary (fstring ("%" ∷ escape_like row.brand ∷ "%" ∷ [])) ≡ true)
            ⊎ (store.ilike m.title (fstring ("%" ∷ escape_like row.title ∷ "%" ∷ [])) ≡ true))

  mentions_iff :
      (row : ContentRun) (m : Material)
      → Decides (m.tenant_id == row.tenant_id && mentions store row m) (Mentions row m)
  mentions_iff row m =
      let like =
        or_Decides _ _
          (id_Decides (store.ilike m.title (fstring ("%" ∷ escape_like row.brand ∷ "%" ∷ []))))
          (or_Decides _ _
            (id_Decides (store.ilike m.summary (fstring ("%" ∷ escape_like row.brand ∷ "%" ∷ []))))
            (id_Decides
              (store.ilike m.title (fstring ("%" ∷ escape_like row.title ∷ "%" ∷ []))))) in
      let all = and_Decides _ _ (nat_beq_iff m.tenant_id row.tenant_id) like in
      (
        λ h. let (own, alike) = all.0 h in record { in_tenant = own; alike = alike },
        λ k. all.1 (k.in_tenant, k.alike),
      )

  -- The run has a link to the material.
  abbrev pub IsLinked : ContentRun → Uuid → Db → Type 0
  IsLinked row m db =
      Any (λ (l : ContentRunMaterial). (l.run_id ≡ row.id) × (m ≡ l.material_id))
        (store.links.rows db row.tenant_id)

  existing_iff :
      (row : ContentRun) (m : Uuid) (db : Db)
      → In m (existing_materials store row db) ↔ IsLinked row m db
  existing_iff row m db =
      let listed =
        In-map-keep (λ (l : ContentRunMaterial). l.run_id == row.id)
          (λ (l : ContentRunMaterial). l.material_id) m (store.links.rows db row.tenant_id) in
      (
        λ h.
            Any-map (store.links.rows db row.tenant_id)
              (λ l k. ((nat_beq_iff l.run_id row.id).0 k.0, k.1)) (listed.0 h),
        λ h. listed.1 (
            Any-map (store.links.rows db row.tenant_id)
              (λ l k. ((nat_beq_iff l.run_id row.id).1 k.0, k.1)) h),
      )

  -- The materials that a collection finds, before the limit.
  abbrev pub mentioning : ContentRun → Db → List Material
  mentioning row db =
      keep (mentions store row)
        (keep (λ m. m.tenant_id == row.tenant_id) (store.materials.rows db row.tenant_id))

  both :
      (row : ContentRun) (m : Material)
      → Decides
          (m.tenant_id == row.tenant_id && mentions store row m)
          (((m.tenant_id == row.tenant_id) ≡ true) × (mentions store row m ≡ true))
  both row m = and_Decides _ _ (id_Decides _) (id_Decides _)

  Any-mentioning :
      (P : Material → Type 0) (row : ContentRun) (db : Db)
      → Any P (mentioning row db)
        ↔ Any (λ m. Mentions row m × P m) (store.materials.rows db row.tenant_id)
  Any-mentioning P row db =
      let rows = store.materials.rows db row.tenant_id in
      let own = λ (m : Material). m.tenant_id == row.tenant_id in
      let hits = Any-keep P (mentions store row) (keep own rows) in
      let held = Any-keep (λ m. (mentions store row m ≡ true) × P m) own rows in
      (
        λ h.
            Any-map rows (λ m k. ((mentions_iff row m).0 ((both row m).1 (k.0, k.1.0)), k.1.1))
              (held.0 (hits.0 h)),
        λ h. hits.1 (
            held.1 (
              Any-map rows
                (λ m k. let (x, y) = (both row m).0 ((mentions_iff row m).1 k.0) in (x, (y, k.1)))
                h)),
      )

  -- A material that a collection reads is stored in the tenant and mentions the run.
  pub matching_materials-mention :
      (P : Material → Type 0) (row : ContentRun) (db : Db)
      → Any P (matching_materials store row db)
      → Any (λ m. Mentions row m × P m) (store.materials.rows db row.tenant_id)
  matching_materials-mention P row db h =
      let h₁ = Any-limit P 10 (order_by (λ (m : Material). m.seq) (mentioning row db)) h in
      (Any-mentioning P row db).0 (Any-order_by P (λ (m : Material). m.seq) (mentioning row db) h₁)

  -- If the materials that mention the run are no more than ten, all of them are read.
  matching_materials-whole :
      (P : Material → Type 0) (row : ContentRun) (db : Db)
      → length (mentioning row db) ≤ 10
      → Any (λ m. Mentions row m × P m) (store.materials.rows db row.tenant_id)
      → Any P (matching_materials store row db)
  matching_materials-whole P row db few h =
      let seq = λ (m : Material). m.seq in
      let sorted = order_by-Any P seq (mentioning row db) ((Any-mentioning P row db).1 h) in
      let whole =
        limit_all 10 (order_by seq (mentioning row db))
          (omega (arith, few, length-order_by seq (mentioning row db))) in
      subst (λ xs. Any P xs) (sym whole) sorted

  abbrev pub IsCollected : ContentRun → (ℕ → Uuid) → Uuid → Db → Uuid → Type 0
  IsCollected row ids actor db m =
      Any (λ (l : ContentRunMaterial). l.material_id ≡ m) (collect_materials store row actor ids db)

  -- A collection links a material only if the run has no link to it yet and it is stored in the
  -- tenant with a title or summary like the brand of the run or a title like its title; if no more
  -- than ten such materials are stored, it links each of them that is not linked yet. All its links
  -- are of the run and in its tenant, and they are at most ten.
  pub collect_materials_iff :
      (row : ContentRun) (actor : Uuid) (ids : ℕ → Uuid) (db : Db) (m : Uuid)
      → (IsCollected row ids actor db m
          → (¬ IsLinked row m db)
            × Any (λ x. Mentions row x × (x.id ≡ m)) (store.materials.rows db row.tenant_id))
        × (length (mentioning row db) ≤ 10
            → ¬ IsLinked row m db
            → Any (λ x. Mentions row x × (x.id ≡ m)) (store.materials.rows db row.tenant_id)
            → IsCollected row ids actor db m)
        × All
            (λ (l : ContentRunMaterial). (l.run_id ≡ row.id) × (l.tenant_id ≡ row.tenant_id))
            (collect_materials store row actor ids db)
        × length (collect_materials store row actor ids db) ≤ 10
  unfolding collect_materials aipy.Prelude.Sorting.limit order_by
  collect_materials_iff row actor ids db m =
      let existing = existing_materials store row db in
      let matching = matching_materials store row db in
      let links = collect_links_iff row actor ids 0 existing matching m in
      let rows = store.materials.rows db row.tenant_id in
      let linked = existing_iff row m db in
      (
        λ h.
            let found = links.0 h in
            let stored =
              matching_materials-mention (λ x. (x.id ≡ m) × (¬ In m existing)) row db found in
            (
              λ is_linked. absurd (Any-const rows (λ x k. k.1.1) stored (linked.1 is_linked)),
              Any-map rows (λ x k. (k.0, k.1.0)) stored,
            ),
        λ few unlinked stored.
            let found =
              matching_materials-whole (λ x. (x.id ≡ m) × (¬ In m existing)) row db few
                (Any-map rows (λ x k. (k.0, (k.1, λ i. unlinked (linked.0 i)))) stored) in
            links.1 found,
        collect_links_of row actor ids 0 existing matching,
        omega (
          arith,
          collect_links_count row actor ids 0 existing matching,
          length-limit 10 (order_by (λ (x : Material). x.seq) (mentioning row db)),
        ),
      )
