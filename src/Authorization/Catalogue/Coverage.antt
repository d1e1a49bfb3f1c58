-- ===== src/Authorization/Catalogue/Coverage.antt =====
-- Every text that a membership may carry as its role resolves to a role of the catalogue, and what
-- the catalogue gives (src/aipy/modules/authorization/infrastructure/role_catalog.py).
use aipy.Prelude.{
  String, refl, sym, inl, inr, true, false, not, Option, none, some, List, [], map, arith, eq_iff,
  ◌≡◌, ◌∷◌, ◌==◌, Bool-cases, any, In, contains, contains_iff, strip, get, get_or, string_eq,
  nat_eq,
}
use aipy.Authorization.Catalogue.{
  admin_permissions, editor_permissions, reviewer_permissions, system_roles, default_role_code,
  normalize_role, role_code, permissions_for_role, permissions_of, grants_for_role,
  viewer_permissions, role_aliases,
}

-- The four codes of the built-in roles.
pub data SystemRole (code : String) : Type 0 where
  admin : code ≡ "admin" → SystemRole code
  editor : code ≡ "editor" → SystemRole code
  reviewer : code ≡ "reviewer" → SystemRole code
  plain_member : code ≡ "member" → SystemRole code

normalize_role-SystemRole : (r : String) → SystemRole (normalize_role r)
unfolding normalize_role
normalize_role-SystemRole r = elim (Bool-cases ("admin" == r)) [
  | inl e ↦ rw e (admin (sym ((eq_iff "admin" r).0 e)))
  | inr not_admin ↦ elim (Bool-cases ("editor" == r)) [
    | inl e ↦ rw (not_admin, e) (editor (sym ((eq_iff "editor" r).0 e)))
    | inr not_editor ↦ elim (Bool-cases ("reviewer" == r)) [
      | inl e ↦ rw (not_admin, not_editor, e) (reviewer (sym ((eq_iff "reviewer" r).0 e)))
      | inr not_reviewer ↦ elim (Bool-cases ("member" == r)) [
        | inl e ↦
            rw (not_admin, not_editor, not_reviewer, e)
              (plain_member (sym ((eq_iff "member" r).0 e)))
        | inr not_member ↦ rw (not_admin, not_editor, not_reviewer, not_member) (by_alias r)
      ]
    ]
  ]
]
  where
    by_alias : (s : String) → SystemRole (get_or (get role_aliases s) default_role_code)
    by_alias s = elim (Bool-cases ("租户管理员" == s)) [
      | inl e ↦ rw e (admin refl)
      | inr a ↦ elim (Bool-cases ("编辑" == s)) [
        | inl e ↦ rw (a, e) (editor refl)
        | inr b ↦ elim (Bool-cases ("审核员" == s)) [
          | inl e ↦ rw (a, b, e) (reviewer refl)
          | inr c ↦ elim (Bool-cases ("成员" == s)) [
            | inl e ↦ rw (a, b, c, e) (plain_member refl)
            | inr d ↦ rw (a, b, c, d) (plain_member refl)
          ]
        ]
      ]
    ]

role_code-SystemRole : (role : Option String) → SystemRole (role_code role)
unfolding role_code
role_code-SystemRole none = plain_member refl
role_code-SystemRole (some role) = elim (Bool-cases (role == "")) [
  | inl e ↦ rw e (plain_member refl)
  | inr e ↦ rw e (normalize_role-SystemRole (strip role))
]

-- What holds of every built-in role holds of what any text resolves to.
for_every_role :
    (P : List String → Type 0)
    → ((code : String) → SystemRole code → P (get_or (get system_roles code) viewer_permissions))
    → (role : Option String) → P (permissions_for_role role)
unfolding permissions_for_role
for_every_role P h role = h (role_code role) (role_code-SystemRole role)

included :
    (xs ys : List String) (c : String)
    → any (λ x. not (contains ys x)) xs ≡ false
    → In c xs
    → In c ys
included (x ∷ xs) ys c none_missing (inl e) =
    let there : contains ys x ≡ true = ground (arith, none_missing) in
    (contains_iff ys c).0 (rw e there)
included (x ∷ xs) ys c none_missing (inr h) = included xs ys c (ground (arith, none_missing)) h
included [] ys c none_missing h = elim h [ ]

viewers_part :
    (code c : String)
    → In code viewer_permissions
    → SystemRole c
    → In code (get_or (get system_roles c) viewer_permissions)
viewers_part code c h (admin e) = rw e (included viewer_permissions admin_permissions code refl h)
viewers_part code c h (editor e) = rw e (included viewer_permissions editor_permissions code refl h)
viewers_part code c h (reviewer e) =
    rw e (included viewer_permissions reviewer_permissions code refl h)
viewers_part code c h (plain_member e) = rw e h

-- Whatever text stands for the role, it has the viewer's permissions.
pub every_role_views :
    (role : Option String) (code : String)
    → In code viewer_permissions
    → In code (permissions_for_role role)
every_role_views role code h =
    for_every_role (λ codes. In code codes) (λ c named. viewers_part code c h named) role

-- Whatever text stands for the role, its grants are made without an error, one for each of its
-- permissions.
pub grants_for_role-total :
    (role : Option String)
    → grants_for_role role ≡ some (map (λ code. record { code = code }) (permissions_for_role role))
unfolding grants_for_role
grants_for_role-total role =
    for_every_role
      (λ codes. permissions_of codes ≡ some (map (λ code. record { code = code }) codes)) step role
  where
    step :
        (c : String)
        → SystemRole c
        → permissions_of (get_or (get system_roles c) viewer_permissions)
          ≡ some (
              map (λ code. record { code = code }) (get_or (get system_roles c) viewer_permissions))
    step c (admin e) = rw e refl
    step c (editor e) = rw e refl
    step c (reviewer e) = rw e refl
    step c (plain_member e) = rw e refl
