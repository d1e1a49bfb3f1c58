-- ===== src/Authorization/Repository/Rows.antt =====
-- What the rows grant: `_grants` and `get_policy` of
-- src/aipy/modules/authorization/infrastructure/policy_repository.py, and whole requests on them.
use aipy.Prelude.{
  String, refl, sym, ap, subst, inl, inr, Bool, true, false, not, some, List, [], eq_iff, ◌≡◌, ◌∙◌,
  ◌↔◌, ◌⊎◌, ◌&&◌, ◌∷◌, ◌==◌, nat_beq_iff, holds, Bool-cases, Decides, and_Decides, holds_iff, keep,
  find, is_empty, is_empty_iff, find_holds, Any, Any-map, In, In-map-keep, any_iff, In-find,
  string_eq, nat_eq,
}
use aipy.Prelude.Options.{>>=-eq-some}
use aipy.Security.{Uuid, TenantContext}
use aipy.Authorization.Permission.{Permission, match_permission, make_permission}
use aipy.Authorization.Policy.{PermissionGrant, AuthorizationPolicy, ResourceContext}
use aipy.Authorization.Service.{Action, authorize, normalize_permission}
use aipy.Authorization.Service.Decisions.{authorize_iff, Grants}
use aipy.Organization.{Tenant, TenantMembership, AppUser, Role, RolePermission}
use aipy.Authorization.Catalogue.{resolve_role, permissions_for_role}
use aipy.Authorization.Repository.{
  Tables, active_membership, permission_codes, resolve_codes, fromkeys, valid_grants, grants,
  policy_of, get_policy, role_in_tenant, member_with_role,
}

In-keep :
    (p : String → Bool) (c : String) (xs : List String)
    → In c (keep p xs) ↔ (In c xs × (p c ≡ true))
In-keep p c [] = (λ h. elim h [ ], λ h. elim h.0 [ ])
In-keep p c (x ∷ xs) = elim (Bool-cases (p x)) [
  | inl e ↦ rw e (
    λ h. elim h [
      | inl same ↦ (inl same, rw same e)
      | inr rest ↦ let (found, good) = (In-keep p c xs).0 rest in (inr found, good)
    ],
    λ h. elim h.0 [ inl same ↦ inl same | inr rest ↦ inr ((In-keep p c xs).1 (rest, h.1)) ],
  )
  | inr e ↦ rw e (
    λ h. let (found, good) = (In-keep p c xs).0 h in (inr found, good),
    λ h. elim h.0 [
      | inl same ↦ let good : p x ≡ true = subst (λ y. p y ≡ true) same h.1 in cc (good, e)
      | inr rest ↦ (In-keep p c xs).1 (rest, h.1)
    ],
  )
]

fromkeys_iff : (c : String) (codes : List String) → In c (fromkeys codes) ↔ In c codes
unfolding fromkeys
fromkeys_iff c [] = (λ h. h, λ h. h)
fromkeys_iff c (code ∷ codes) =
    let other = In-keep (λ x. not (x == code)) c (fromkeys codes) in
    let rest = fromkeys_iff c codes in
    (
      λ h. elim h [ inl same ↦ inl same | inr k ↦ inr (rest.0 (other.0 k).0) ],
      λ h. elim h [
        | inl same ↦ inl same
        | inr k ↦ elim (Bool-cases (c == code)) [
          | inl e ↦ inl ((eq_iff c code).0 e)
          | inr e ↦ inr (other.1 (rest.1 k, ap not e))
        ]
      ],
    )

abbrev pub Granted : String → List PermissionGrant → Type 0
Granted c gs = Any (λ (g : PermissionGrant). g.permission.code ≡ c) gs

valid_grants_iff :
    (c : String) (codes : List String)
    → Granted c (valid_grants codes) ↔ (In c codes × (match_permission c ≡ true))
unfolding valid_grants make_permission
valid_grants_iff c [] = (λ h. elim h [ ], λ h. elim h.0 [ ])
valid_grants_iff c (code ∷ codes) =
    let rest = valid_grants_iff c codes in
    elim (Bool-cases (match_permission code)) [
      | inl good ↦
          rw (good, valid_grants)
            (
              λ h. elim h [
                | inl same ↦ (inl (sym same), rw (← same) good)
                | inr k ↦ let (found, valid) = rest.0 k in (inr found, valid)
              ],
              λ h. elim h.0 [ inl same ↦ inl (sym same) | inr k ↦ inr (rest.1 (k, h.1)) ],
            )
      | inr bad ↦
          rw (bad, valid_grants)
            (
              λ h. let (found, valid) = rest.0 h in (inr found, valid),
              λ h. elim h.0 [
                | inl same ↦
                    let valid : match_permission code ≡ true =
                      subst (λ y. match_permission y ≡ true) same h.1 in
                    cc (valid, bad)
                | inr k ↦ rest.1 (k, h.1)
              ],
            )
    ]

-- The policy made of a list of codes grants exactly those of them that are well formed.
pub grants_iff :
    (c : String) (codes : List String)
    → Granted c (grants codes) ↔ (In c codes × (match_permission c ≡ true))
unfolding grants
grants_iff c codes =
    let valid = valid_grants_iff c (fromkeys codes) in
    let listed = fromkeys_iff c codes in
    (λ h. let (found, good) = valid.0 h in (listed.0 found, good), λ h. valid.1 (listed.1 h.0, h.1))

-- The row gives the code to a role of the tenant, which the membership has.
pub record RoleCode (db : Tables) (tenant membership : Uuid) (code : String) (p : RolePermission)
    : Type 0 where
  pub gives : code ≡ p.permission_code
  pub in_tenant : Any (λ (r : Role). (r.id ≡ p.role_id) × (r.tenant_id ≡ tenant)) db.roles
  pub held :
      Any
        (λ (m : TenantMembership).
          (m.tenant_id ≡ tenant) × ((m.id ≡ membership) × (m.role_id ≡ some p.role_id)))
        db.memberships

role_in_tenant_iff :
    (db : Tables) (tenant role : Uuid)
    → Decides
        (role_in_tenant db tenant role)
        (Any (λ (r : Role). (r.id ≡ role) × (r.tenant_id ≡ tenant)) db.roles)
role_in_tenant_iff db tenant role =
    any_iff (λ (r : Role). r.id == role && r.tenant_id == tenant) db.roles
      (λ r. and_Decides _ _ (nat_beq_iff r.id role) (nat_beq_iff r.tenant_id tenant))

member_with_role_iff :
    (db : Tables) (tenant membership role : Uuid)
    → Decides (member_with_role db tenant membership role) (
        Any
          (λ (m : TenantMembership).
            (m.tenant_id ≡ tenant) × ((m.id ≡ membership) × (m.role_id ≡ some role)))
          db.memberships)
member_with_role_iff db tenant membership role =
    any_iff
      (λ (m : TenantMembership).
        m.tenant_id == tenant && (m.id == membership && holds m.role_id role))
      db.memberships
      (λ m.
        and_Decides _ _ (nat_beq_iff m.tenant_id tenant)
          (and_Decides _ _ (nat_beq_iff m.id membership) (holds_iff m.role_id role)))

permission_codes_iff :
    (db : Tables) (tenant membership : Uuid) (code : String)
    → In code (permission_codes db tenant membership)
      ↔ Any (RoleCode db tenant membership code) db.role_permissions
unfolding permission_codes
permission_codes_iff db tenant membership code =
    let test = λ (p : RolePermission).
      role_in_tenant db tenant p.role_id && member_with_role db tenant membership p.role_id in
    let listed =
      In-map-keep test (λ (p : RolePermission). p.permission_code) code db.role_permissions in
    let decides = λ (p : RolePermission).
      and_Decides _ _ (role_in_tenant_iff db tenant p.role_id)
        (member_with_role_iff db tenant membership p.role_id) in
    (
      λ h.
          Any-map db.role_permissions
            (λ p k.
              let (in_tenant, held) = (decides p).0 k.0 in
              record { gives = k.1; in_tenant = in_tenant; held = held })
            (listed.0 h),
      λ h.
          listed.1
            (Any-map db.role_permissions (λ p k. ((decides p).1 (k.in_tenant, k.held), k.gives)) h),
    )

-- The code comes with the role of the member, or no code does, and it is one that the catalogue
-- gives the role named by the job title.
abbrev pub Coded : Tables → Uuid → TenantMembership → String → Type 0
Coded db tenant membership code =
    Any (RoleCode db tenant membership.id code) db.role_permissions
    ⊎ (((c : String) → ¬ Any (RoleCode db tenant membership.id c) db.role_permissions)
        × In code (permissions_for_role (some (resolve_role membership.job_title))))

resolve_codes-Coded :
    (db : Tables) (tenant : Uuid) (membership : TenantMembership) (code : String)
    → In code (resolve_codes (permission_codes db tenant membership.id) membership.job_title)
    → Coded db tenant membership code
unfolding resolve_codes
resolve_codes-Coded db tenant membership code h =
    let codes = permission_codes db tenant membership.id in
    elim (Bool-cases (is_empty codes)) [
      | inl e ↦
          let none_there : codes ≡ [] = (is_empty_iff codes).0 e in
          inr (
            λ c k.
                elim (subst (In c) none_there
                  ((permission_codes_iff db tenant membership.id c).1 k)) [ ],
            rw e at h,
          )
      | inr e ↦ inl ((permission_codes_iff db tenant membership.id code).0 (rw e at h))
    ]

-- The rows behind an allowed request.
pub record Backed (db : Tables) (s : TenantContext) (code : String) : Type 0 where
  pub tenant : Tenant
  pub membership : TenantMembership
  pub user : AppUser
  pub tenant_stored : In tenant db.tenants
  pub membership_stored : In membership db.memberships
  pub user_stored : In user db.users
  pub own_tenant : tenant.id ≡ s.tenant_id
  pub member_of_tenant : membership.tenant_id ≡ s.tenant_id
  pub member_is_actor : membership.user_id ≡ s.actor_id
  pub user_is_actor : user.id ≡ s.actor_id
  pub tenant_active : tenant.status ≡ "ACTIVE"
  pub membership_active : membership.status ≡ "ACTIVE"
  pub user_active : user.status ≡ "ACTIVE"
  pub coded : Coded db s.tenant_id membership code

both : (a b : Bool) → (a && b) ≡ true → (a ≡ true) × (b ≡ true)
both true true h = (refl, refl)
both true false h = cc
both false b h = cc

-- A request that is allowed under the stored policies has a stored tenant, which is the caller's, a
-- stored membership of the caller in that tenant and a stored user, who is the caller, all three
-- active, and its code comes with a role of the tenant that the member has or, when no code does,
-- with the role of the catalogue that the job title names.
pub allowed-Backed :
    (db : Tables) (s : TenantContext) (action : Action) (r : ResourceContext)
    → (authorize (get_policy db) s action r).allowed ≡ true
    → (p : Permission) × (normalize_permission action ≡ some p) × Backed db s p.code
unfolding get_policy active_membership
allowed-Backed db s action r h =
    let facts = (authorize_iff (get_policy db) s action r).0 h in
    let (tenant, tenant_found, h₁) =
      >>=-eq-some (find (λ (t : Tenant). t.id == s.tenant_id) db.tenants) _ facts.found in
    let (membership, membership_found, h₂) =
      >>=-eq-some (active_membership db s.tenant_id s.actor_id) _ h₁ in
    let (user, user_found, h₃) =
      >>=-eq-some (find (λ (u : AppUser). u.id == s.actor_id) db.users) _ h₂ in
    let same : policy_of db s.tenant_id tenant membership user ≡ facts.policy = cc h₃ in
    let tenant_on =
      ap (λ (q : AuthorizationPolicy). q.tenant_active) same ∙ facts.permits.tenant_active in
    let actor_on =
      ap (λ (q : AuthorizationPolicy). q.actor_active) same ∙ facts.permits.actor_active in
    let (member_on, user_on) = both _ _ actor_on in
    let given =
      subst (λ (q : AuthorizationPolicy). Any (Grants s facts.wanted.code r) q.permission_grants)
        (sym same) facts.permits.granted in
    let codes =
      resolve_codes (permission_codes db s.tenant_id membership.id) membership.job_title in
    let named = Any-map (grants codes) (λ g k. k.0) given in
    let own = λ (m : TenantMembership). m.tenant_id == s.tenant_id && m.user_id == s.actor_id in
    let (in_tenant, is_actor) =
      (and_Decides _ _ (nat_beq_iff membership.tenant_id s.tenant_id)
          (nat_beq_iff membership.user_id s.actor_id)).0
        (find_holds own db.memberships membership membership_found) in
    (
      facts.wanted,
      facts.normalized,
      record {
        tenant = tenant;
        membership = membership;
        user = user;
        tenant_stored = In-find _ db.tenants tenant tenant_found;
        membership_stored = In-find own db.memberships membership membership_found;
        user_stored = In-find _ db.users user user_found;
        own_tenant =
            (nat_beq_iff tenant.id s.tenant_id).0
              (find_holds (λ (t : Tenant). t.id == s.tenant_id) db.tenants tenant tenant_found);
        member_of_tenant = in_tenant;
        member_is_actor = is_actor;
        user_is_actor =
            (nat_beq_iff user.id s.actor_id).0
              (find_holds (λ (u : AppUser). u.id == s.actor_id) db.users user user_found);
        tenant_active = (eq_iff tenant.status "ACTIVE").0 tenant_on;
        membership_active = (eq_iff membership.status "ACTIVE").0 member_on;
        user_active = (eq_iff user.status "ACTIVE").0 user_on;
        coded =
            resolve_codes-Coded db s.tenant_id membership facts.wanted.code
              ((grants_iff facts.wanted.code codes).0 named).0;
      },
    )
