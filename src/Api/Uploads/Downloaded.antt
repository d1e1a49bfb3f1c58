-- ===== src/Api/Uploads/Downloaded.antt =====
-- What was uploaded is what is downloaded: apps/api/repositories.py.
use aipy.Prelude.{
  ℕ, String, refl, sym, ap, subst, inl, inr, false, Option, none, some, List, ◌≤◌, ◌≡◌, ◌∙◌, ◌↔◌,
  ◌⊎◌, ◌==◌, ltb, nat_beq_iff, ltb-le, Bool-cases, length, is_empty, In, find_unique, is_blank,
  or_else, given, has_char, or_else-given, string_eq, nat_eq,
}
use aipy.Prelude.Sorting.{limit_whole}
use aipy.Security.{Uuid, TenantContext}
use aipy.Authorization.Policy.{AuthorizationPolicy}
use aipy.Api.Errors.{
  Failure, ok, ◌>>◌, >>-eq-ok, >>=-eq-ok, ok_inj, or_failure, or_failure-eq-ok, raise_if-eq-ok,
}
use aipy.Api.Rows.{Material, MaterialFile}
use aipy.Api.Preconditions.{Resource, require_permission}
use aipy.Api.Uploads.{
  Upload, MaterialSummary, max_upload_bytes, safe_name, uploaded_material, uploaded_file,
  to_material, stored_file, create_uploaded_material, upload_material, get_material_file,
  next_material_seq,
}
use aipy.Api.Uploads.FileNames.{is_slash, path_name, path_name-IsFlat}
use aipy.Api.Uploads.Store.{UploadStore}

safe_name-IsFlat : (filename : String) → has_char is_slash (safe_name filename) ≡ false
safe_name-IsFlat filename = elim (Bool-cases (is_blank (path_name (or_else filename "未命名文件")))) [
  | inl blank ↦ rw blank refl
  | inr named ↦ rw named (path_name-IsFlat (or_else filename "未命名文件"))
]

module _ {Db : Type 0} (store : UploadStore Db)
    (get_policy : TenantContext → Option AuthorizationPolicy) (subject : TenantContext) where
  -- An upload that went through has added the material and its file, and nothing else.
  pub record Stored (u : Upload) (actor id file_id : Uuid) (db : Db) (summary : MaterialSummary)
      (db' : Db) : Type 0 where
    pub row : Material
    pub is_row :
        row
        ≡ uploaded_material subject.tenant_id actor id
            (next_material_seq (store.materials.rows db subject.tenant_id))
            u
    pub answer : summary ≡ to_material get_policy subject row
    pub not_empty : is_empty u.content ≡ false
    pub fits : length u.content ≤ max_upload_bytes
    pub materials :
        (m : Material)
        → In m (store.materials.rows db' subject.tenant_id)
          ↔ ((m ≡ row) ⊎ In m (store.materials.rows db subject.tenant_id))
    pub file :
        In
          (uploaded_file subject.tenant_id actor file_id id u)
          (store.files.rows db' subject.tenant_id)

  inserted-Stored :
      (u : Upload) (actor id file_id : Uuid) (db db₁ db' : Db) (summary : MaterialSummary)
      (row : Material)
      → row
        ≡ uploaded_material subject.tenant_id actor id
            (next_material_seq (store.materials.rows db subject.tenant_id))
            u
      → row.tenant_id ≡ subject.tenant_id
      → is_empty u.content ≡ false
      → ltb max_upload_bytes (length u.content) ≡ false
      → store.materials.insert db row ≡ some db₁
      → store.files.insert db₁ (uploaded_file subject.tenant_id actor file_id id u) ≡ some db'
      → summary ≡ to_material get_policy subject row
      → Stored u actor id file_id db summary db'
  unfolding uploaded_file
  inserted-Stored u actor id file_id db db₁ db' summary row is tenant filled short new new_file
        answer =
      let kept = store.file_frame db₁ db' _ new_file subject.tenant_id in
      record {
        row = row;
        is_row = is;
        answer = answer;
        not_empty = filled;
        fits = ltb-le max_upload_bytes (length u.content) short;
        materials = λ m.
            let step = store.materials.inserted db db₁ row new subject.tenant_id m in
            rw kept (
              λ k. elim (step.0 k) [ inl e ↦ inl e.0 | inr e ↦ inr e ],
              λ k. step.1 (elim k [ inl e ↦ inl (e, tenant) | inr e ↦ inr e ]),
            );
        file = (store.files.inserted db₁ db' _ new_file subject.tenant_id _).1 (inl (refl, refl));
      }

  pub create_uploaded_material-Stored :
      (u : Upload) (actor id file_id : Uuid) (db db' : Db) (summary : MaterialSummary)
      → create_uploaded_material store get_policy subject u actor id file_id db ≡ ok (summary, db')
      → Stored u actor id file_id db summary db'
  unfolding create_uploaded_material uploaded_material
  create_uploaded_material-Stored u actor id file_id db db' summary h =
      let (allowed, h₁) = >>-eq-ok _ _ h in
      let (filled, h₂) = >>-eq-ok _ _ h₁ in
      let (small, h₃) = >>-eq-ok _ _ h₂ in
      let row =
        uploaded_material subject.tenant_id actor id
          (next_material_seq (store.materials.rows db subject.tenant_id)) u in
      let file = uploaded_file subject.tenant_id actor file_id id u in
      let (db₁, added, h₄) =
        >>=-eq-ok (or_failure Failure.integrity_error (store.materials.insert db row)) _ h₃ in
      let (db₂, filed, h₅) =
        >>=-eq-ok (or_failure Failure.integrity_error (store.files.insert db₁ file)) _ h₄ in
      let same = ok_inj h₅ in
      inserted-Stored u actor id file_id db db₁ db' summary row refl refl
        (raise_if-eq-ok (is_empty u.content) _ _ _ filled)
        (raise_if-eq-ok (ltb max_upload_bytes (length u.content)) _ _ _ small)
        (or_failure-eq-ok Failure.integrity_error (store.materials.insert db row) added)
        (subst (λ d. store.files.insert db₁ file ≡ some d) (ap (λ r. r.1) same)
          (or_failure-eq-ok Failure.integrity_error (store.files.insert db₁ file) filed))
        (sym (ap (λ r. r.0) same))

  get_material_file-stored :
      (u : Upload) (actor id file_id : Uuid) (db db' : Db) (summary : MaterialSummary)
      → Stored u actor id file_id db summary db'
      → get_material_file store get_policy subject summary.id db' ≡ (
          require_permission get_policy subject Resource.source "view"
            (record { id = id; created_by = some actor; assignee_id = none })
          >> ok (stored_file (some (uploaded_file subject.tenant_id actor file_id id u))))
  unfolding get_material_file uploaded_material uploaded_file
  get_material_file-stored u actor id file_id db db' summary s =
      let code : summary.id ≡ s.row.code = ap (λ (m : MaterialSummary). m.id) s.answer in
      let found =
        find_unique (λ (m : Material). store.citext_equal m.code s.row.code)
          (store.materials.rows db' subject.tenant_id) s.row ((s.materials s.row).1 (inl refl))
          (store.citext_refl s.row.code)
          (λ y there fits.
            store.unique_code db' subject.tenant_id y s.row there ((s.materials s.row).1 (inl refl))
              fits) in
      let new = uploaded_file subject.tenant_id actor file_id id u in
      let file =
        find_unique (λ (f : MaterialFile). f.material_id == id)
          (store.files.rows db' subject.tenant_id) new s.file ((nat_beq_iff id id).1 refl)
          (λ y there fits.
            store.unique_file db' subject.tenant_id y new there s.file
              ((nat_beq_iff y.material_id id).0 fits)) in
      rw (code, found, s.is_row, file) refl

  -- After an upload that succeeds, the file has at most the bytes of the cap, and a download of the
  -- new material by its code answers, if the policy allows viewing it, with exactly the bytes that
  -- were uploaded, under a name without a slash.
  pub uploaded_is_downloaded :
      (filename content_type : Option String) (body : List ℕ) (decode : List ℕ → Option String)
      (title trust_label : String) (actor id file_id : Uuid) (db db' : Db)
      (summary : MaterialSummary)
      → upload_material store get_policy subject filename content_type body decode title trust_label
          actor id file_id db
        ≡ ok (summary, db')
      → (name : String) × (has_char is_slash name ≡ false)
        × (length body ≤ max_upload_bytes)
        × (get_material_file store get_policy subject summary.id db' ≡ (
            require_permission get_policy subject Resource.source "view"
              (record { id = id; created_by = some actor; assignee_id = none })
            >> ok (
                some (record {
                  filename = name;
                  content_type = given content_type "application/octet-stream";
                  content = body;
                }))))
  unfolding upload_material uploaded_file
  uploaded_is_downloaded filename content_type body decode title trust_label actor id file_id db db'
        summary h =
      let s = create_uploaded_material-Stored _ actor id file_id db db' summary h in
      let whole = limit_whole max_upload_bytes body s.fits in
      let stored = get_material_file-stored _ actor id file_id db db' summary s in
      (
        safe_name (given filename "未命名文件"),
        safe_name-IsFlat (given filename "未命名文件"),
        subst (λ (bytes : List ℕ). length bytes ≤ max_upload_bytes) whole s.fits,
        stored ∙ rw (whole, or_else-given content_type "application/octet-stream") refl,
      )
