-- ===== src/Authorization/Catalogue.antt =====
-- The catalogue of roles, src/aipy/modules/authorization/infrastructure/role_catalog.py.
pub mod Coverage
use aipy.Prelude.{
  String, Option, none, some, List, [], map, ◌∷◌, ◌++◌, ◌==◌, if◌then◌else◌, is_none, strip, get,
  get_or, string_eq, nat_eq,
}
use mathlib.Core.Option
use aipy.Authorization.Permission.{Permission, make_permission}

abbrev pub viewer_permissions : List String
viewer_permissions =
    "batch:view" ∷ "content:view" ∷ "artifact:view" ∷ "source:view" ∷ "workflow:view"
    ∷ "review:view" ∷ "publication:view" ∷ "model:view" ∷ "quota:view" ∷ []

abbrev pub editor_permissions : List String
editor_permissions =
    viewer_permissions
    ++ ("content:create" ∷ "content:edit" ∷ "content:pause" ∷ "content:resume" ∷ "content:rerun"
        ∷ "content:cancel" ∷ "content:export" ∷ "content:collect" ∷ "artifact:edit"
        ∷ "artifact:compare" ∷ "source:create" ∷ "source:edit" ∷ "source:collect"
        ∷ "workflow:execute" ∷ "review:claim" ∷ "review:submit" ∷ "review:assign" ∷ "member:view"
        ∷ "publication:preview" ∷ "publication:export" ∷ [])

abbrev pub reviewer_permissions : List String
reviewer_permissions =
    viewer_permissions
    ++ ("artifact:compare" ∷ "review:claim" ∷ "review:approve" ∷ "review:reject" ∷ "review:reassign"
        ∷ "review:submit" ∷ [])

abbrev pub admin_permissions : List String
admin_permissions =
    editor_permissions
    ++ reviewer_permissions
    ++ ("content:assign" ∷ "workflow:configure" ∷ "model:configure" ∷ "model:credential_manage"
        ∷ "quota:configure" ∷ "member:view" ∷ "member:manage" ∷ "role:view" ∷ "role:manage"
        ∷ "audit:view" ∷ [])

abbrev pub default_role_code : String
default_role_code = "member"

-- `SYSTEM_ROLES`
abbrev pub system_roles : List (String × List String)
system_roles =
    ("admin", admin_permissions)
    ∷ ("editor", editor_permissions)
    ∷ ("reviewer", reviewer_permissions)
    ∷ ("member", viewer_permissions)
    ∷ []

abbrev pub system_role_names : List (String × String)
system_role_names =
    ("admin", "租户管理员") ∷ ("editor", "编辑") ∷ ("reviewer", "审核员") ∷ ("member", "成员") ∷ []

abbrev pub role_aliases : List (String × String)
role_aliases = ("租户管理员", "admin") ∷ ("编辑", "editor") ∷ ("审核员", "reviewer") ∷ ("成员", "member") ∷ []

unfoldable pub normalize_role : String → String
normalize_role normalized =
    if is_none (get system_roles normalized)
    then get_or (get role_aliases normalized) default_role_code
    else normalized

-- `role_code`; the empty text counts as no role.
unfoldable pub role_code : Option String → String
unfolding normalize_role
role_code none = default_role_code
role_code (some role) = if role == "" then default_role_code else normalize_role (strip role)

-- `resolve_role`
abbrev pub resolve_role : Option String → String
resolve_role job_title = role_code job_title

unfoldable pub permissions_for_role : Option String → List String
unfolding role_code
permissions_for_role role = get_or (get system_roles (role_code role)) viewer_permissions

-- `grants_for_role`; `none` is the `ValidationError` of a malformed code.
pub permissions_of : List String → Option (List Permission)
unfolding make_permission
permissions_of [] = some []
permissions_of (code ∷ codes) = elim (make_permission code) [
  | none ↦ none
  | some p ↦ Option.map (λ ps. p ∷ ps) (permissions_of codes)
]

unfoldable pub grants_for_role : Option String → Option (List Permission)
unfolding permissions_of permissions_for_role
grants_for_role role = permissions_of (permissions_for_role role)
