-- ===== src/Api/Creation/Materials.antt =====
-- What `create_material` of apps/api/repositories.py stores.
use aipy.Prelude.{
  ℕ, String, refl, sym, ap, subst, inl, inr, true, false, Option, some, List, [], map, arith, ◌+◌,
  ◌≤◌, ◌<◌, ◌≡◌, ◌∙◌, ◌↔◌, ◌⊎◌, ◌∷◌, Bool-cases, In, is_blank, or_else, given, strip, text_length,
  text_length-take_text, is_blank-take_text, is_blank-or_else,
}
use aipy.Security.{Uuid, TenantContext}
use aipy.Authorization.Policy.{AuthorizationPolicy}
use aipy.Api.Errors.{Result, Failure, ok, err, >>=-eq-ok, ok_inj, or_failure, or_failure-eq-ok}
use aipy.Api.Rows.{Material, material_row}
use aipy.Api.Store.Inserts.{Inserts}
use aipy.Api.Uploads.{MaterialSummary, to_material, next_material_seq, max_or_zero, new_material}
use aipy.Api.UrlImport.{Web, History, PageMetadata, fetch_metadata, max_redirects}
use aipy.Api.UrlImport.Guarded.{IsGuarded, requests}
use aipy.Api.UrlImport.Hops.{fetch_metadata-IsGuarded}
use aipy.Api.UrlImport.Labelled.{fetch_metadata-IsLabelled, IsLabelled}
use aipy.Api.Creation.{
  CreateMaterialCommand, Described, from_page, described, insert_described, when_allowed,
  create_material,
}

pub le-max_or_zero :
    {A : Type 0} (f : A → ℕ) (xs : List A) (x : A) → In x xs → f x ≤ max_or_zero (map f xs)
le-max_or_zero f [] x h = elim h [ ]
le-max_or_zero f (y ∷ xs) x (inl e) = rw e (ground arith)
le-max_or_zero f (y ∷ xs) x (inr h) = let ih = le-max_or_zero f xs x h in ground arith

module _ {Db : Type 0} (materials : Inserts Db material_row)
    (get_policy : TenantContext → Option AuthorizationPolicy) (subject : TenantContext) where
  -- One new row, behind all others in the tenant, with a title.
  pub record Created (command : CreateMaterialCommand) (actor : Uuid) (db : Db)
      (summary : MaterialSummary) (db' : Db) : Type 0 where
    pub row : Material
    pub answer : summary ≡ to_material get_policy subject row
    pub rows :
        (m : Material)
        → In m (materials.rows db' subject.tenant_id)
          ↔ ((m ≡ row) ⊎ In m (materials.rows db subject.tenant_id))
    pub newest : (m : Material) → In m (materials.rows db subject.tenant_id) → m.seq < row.seq
    pub author : row.created_by ≡ some actor
    pub trust : row.trust_label ≡ strip command.trust_label
    pub titled : is_blank row.title ≡ false
    pub title_fits : text_length row.title ≤ 255

module _ {Address : Type 0} (web : Web Address) where
  -- How a description ends: only guarded requests, few of them, none without a URL, and a source
  -- that is not empty.
  record Sourced (url : String) (past : History) (r : Result Described × History) : Type 0 where
    guarded : IsGuarded web r.1
    few : requests r.1 ≤ requests past + (max_redirects + 1)
    quiet : is_blank url ≡ true → r.1 ≡ past
    sourced : (d : Described) → r.0 ≡ ok d → is_blank d.source ≡ false

  from_page-Sourced :
      (url title summary : String) (past : History) (r : Result PageMetadata × History)
      → IsGuarded web r.1
      → requests r.1 ≤ requests past + (max_redirects + 1)
      → ((page : PageMetadata) → r.0 ≡ ok page → IsLabelled page)
      → is_blank url ≡ false
      → Sourced url past (from_page url title summary r)
  from_page-Sourced url title summary past (err e, after) guarded few labelled named = record {
    guarded = guarded;
    few = few;
    quiet = λ b. absurd cc;
    sourced = λ d h. absurd cc;
  }
  from_page-Sourced url title summary past (ok page, after) guarded few labelled named = record {
    guarded = guarded;
    few = few;
    quiet = λ b. absurd cc;
    sourced = λ d h. rw (← (ok_inj h)) (labelled page refl).hosted;
  }

  described-Sourced :
      (url title summary : String) (past : History)
      → IsGuarded web past
      → Sourced url past (described web url title summary past)
  unfolding described
  described-Sourced url title summary past g = elim (Bool-cases (is_blank url)) [
    | inl blank ↦ rw blank (record {
      guarded = g;
      few = omega arith;
      quiet = λ b. refl;
      sourced = λ d h. rw (← (ok_inj h)) refl;
    })
    | inr named ↦
        let (guarded, few, fetched) = fetch_metadata-IsGuarded web url past g in
        rw named (
          from_page-Sourced url title summary past (fetch_metadata web url past) guarded few
            (λ page h. (fetch_metadata-IsLabelled web url past page g h).0) named)
  ]

  module _ {Db : Type 0} (materials : Inserts Db material_row)
      (get_policy : TenantContext → Option AuthorizationPolicy) (subject : TenantContext) where
    insert_described-Created :
        (command : CreateMaterialCommand) (actor id : Uuid) (db db' : Db)
        (r : Result Described × History) (past' : History) (summary : MaterialSummary)
        → ((d : Described) → r.0 ≡ ok d → is_blank d.source ≡ false)
        → insert_described web materials get_policy subject command actor id db r
          ≡ (ok (summary, db'), past')
        → Created materials get_policy subject command actor db summary db' × (past' ≡ r.1)
    insert_described-Created command actor id db db' (err e, past) past' summary sourced h =
        absurd (cc (ap (λ p. p.0) h))
    insert_described-Created command actor id db db' (ok d, past) past' summary sourced h =
        let title = or_else d.title d.source in
        let titled = is_blank-or_else d.title d.source (sourced d refl) in
        let seq = next_material_seq (materials.rows db subject.tenant_id) in
        let row = new_material subject.tenant_id actor id (record {
          seq = seq;
          title = title;
          summary = d.summary;
          source = d.source;
          type = d.type;
          trust_label = strip command.trust_label;
        }) in
        let (db₁, added, answer) =
          >>=-eq-ok (or_failure Failure.integrity_error (materials.insert db row)) _
            (ap (λ p. p.0) h) in
        let same = ok_inj answer in
        let new : materials.insert db row ≡ some db' =
          subst (λ d. materials.insert db row ≡ some d) (ap (λ s. s.1) same)
            (or_failure-eq-ok Failure.integrity_error (materials.insert db row) added) in
        (
          record {
            row = row;
            answer = sym (ap (λ s. s.0) same);
            rows = λ m.
                let step = materials.inserted db db' row new subject.tenant_id m in
                (
                  λ k. elim (step.0 k) [ inl e ↦ inl e.0 | inr e ↦ inr e ],
                  λ k. step.1 (elim k [ inl e ↦ inl (e, refl) | inr e ↦ inr e ]),
                );
            newest = λ m there.
                let below =
                  le-max_or_zero (λ (m : Material). m.seq) (materials.rows db subject.tenant_id) m
                    there in
                omega (arith, below);
            author = refl;
            trust = refl;
            titled = is_blank-take_text 254 title titled;
            title_fits = text_length-take_text 255 title;
          },
          sym (ap (λ p. p.1) h),
        )

    when_allowed-Created :
        (command : CreateMaterialCommand) (actor id : Uuid) (db db' : Db) (past past' : History)
        (r : Result (Unit {0})) (summary : MaterialSummary)
        → IsGuarded web past
        → when_allowed web materials get_policy subject command actor id db past r
          ≡ (ok (summary, db'), past')
        → Created materials get_policy subject command actor db summary db'
          × IsGuarded web past'
          × (requests past' ≤ requests past + (max_redirects + 1))
          × (is_blank (strip (given command.url "")) ≡ true → past' ≡ past)
    when_allowed-Created command actor id db db' past past' (err e) summary g h =
        absurd (cc (ap (λ p. p.0) h))
    when_allowed-Created command actor id db db' past past' (ok _) summary g h =
        let url = strip (given command.url "") in
        let title = strip (given command.title "") in
        let s = described-Sourced url title (strip command.summary) past g in
        let (created, is) =
          insert_described-Created command actor id db db'
            (described web url title (strip command.summary) past) past' summary s.sourced h in
        (created, rw is s.guarded, rw is s.few, λ b. is ∙ s.quiet b)

    -- A creation of a material that succeeds has added one row with a title that is not empty and
    -- fits its column, numbered above all others of the tenant, and answers with it; before that it
    -- made at most six requests, each for a URL whose host had just been found public, and none
    -- without a URL.
    pub create_material-Created :
        (command : CreateMaterialCommand) (actor id : Uuid) (db db' : Db) (past past' : History)
        (summary : MaterialSummary)
        → IsGuarded web past
        → create_material web materials get_policy subject command actor id db past
          ≡ (ok (summary, db'), past')
        → Created materials get_policy subject command actor db summary db'
          × IsGuarded web past'
          × (requests past' ≤ requests past + (max_redirects + 1))
          × (is_blank (strip (given command.url "")) ≡ true → past' ≡ past)
    unfolding create_material
    create_material-Created command actor id db db' past past' summary g h =
        when_allowed-Created command actor id db db' past past' _ summary g h
