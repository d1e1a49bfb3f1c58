-- ===== src/Api/Sessions/Accounts.antt =====
-- Users at their login: `authenticate` and `build_session` of apps/api/repositories.py. Password
-- hashing, equality of `CITEXT` columns and `str.lower` are parameters.
use aipy.Prelude.{
  String, Bool, true, Option, some, List, [], map, ◌&&◌, ◌∷◌, ◌==◌, if◌then◌else◌, holds, keep,
  find, string_eq, nat_eq,
}
use aipy.Prelude.Options.{◌>>=◌, ◌>>◌, require}
use aipy.Prelude.Sorting.{order_by}
use aipy.Security.{Uuid, ActorType}
use aipy.Organization.{Tenant, AppUser, TenantMembership, Workspace}
use aipy.Authorization.Catalogue.{resolve_role, permissions_for_role}
use aipy.Authorization.Repository.{Tables}
use aipy.Identity.Claims.{Time, TokenSubject}
use aipy.Api.Rows.{next_version}

-- The database, as far as logins go.
pub record Directory : Type 0 where
  pub tables : Tables
  pub workspaces : List Workspace

-- The parameters: `PasswordHasher.verify`, equality of `CITEXT` columns, and `str.lower`.
pub record Texts : Type 0 where
  pub verify : String → String → Bool
  pub citext_equal : String → String → Bool
  pub lower : String → String

-- The row that a login leaves; a row without a net change is not written. Its flush is taken to find
-- the version that was read: a lost race is a `StaleDataError` that nothing catches.
abbrev pub seen_at : Time → AppUser → AppUser
seen_at now user = if holds user.last_login_at now then user else record user {
  last_login_at = some now;
  row_version = next_version (some user.row_version);
}

abbrev pub write_user : AppUser → Directory → Directory
write_user user db = record db {
  tables = record db.tables {
    users = map (λ (u : AppUser). if u.id == user.id then user else u) db.tables.users;
  };
}

-- `authenticate`; `None` leaves the database as it was.
unfoldable pub authenticate :
    Texts → Directory → String → String → Time → Uuid → Option (TokenSubject × Directory)
authenticate texts db email password now session_id = do
  user ← find (λ (u : AppUser). texts.citext_equal u.email email) db.tables.users
  require (user.status == "ACTIVE")
  require (texts.verify password user.password_hash)
  membership ←
      find (λ (m : TenantMembership). m.user_id == user.id && m.status == "ACTIVE")
        db.tables.memberships
  some (
    record {
      tenant_id = membership.tenant_id;
      actor_id = user.id;
      actor_type = ActorType.user;
      session_id = session_id;
      role_ids = [];
      team_ids = [];
      workspace_ids = [];
    },
    write_user (seen_at now user) db,
  )

-- `TenantSession` of apps/api/schemas.py, flattened; an identifier stays a UUID.
pub record TenantSession : Type 0 where
  pub tenant_id : Uuid
  pub tenant_name : String
  pub tenant_slug : String
  pub tenant_timezone : String
  pub tenant_status : String
  pub workspace_id : Uuid
  pub workspace_name : String
  pub user_id : Uuid
  pub user_display_name : String
  pub user_email : String
  pub user_role_label : String
  pub user_data_scopes : List String
  pub permissions : List String

-- `build_session`; the tenant's status is one of those that the schema admits.
unfoldable pub build_session : Directory → Uuid → Uuid → Option TenantSession
build_session db tenant_id actor_id = do
  tenant ← find (λ (t : Tenant). t.id == tenant_id) db.tables.tenants
  workspace ←
      find (λ (w : Workspace). true)
        (order_by (λ (w : Workspace). w.created_at)
          (keep (λ (w : Workspace). w.tenant_id == tenant_id && w.status == "ACTIVE")
            db.workspaces))
  user ← find (λ (u : AppUser). u.id == actor_id) db.tables.users
  membership ←
      find (λ (m : TenantMembership). m.tenant_id == tenant_id && m.user_id == actor_id)
        db.tables.memberships
  let role = resolve_role membership.job_title
  some (record {
    tenant_id = tenant.id;
    tenant_name = tenant.name;
    tenant_slug = tenant.code;
    tenant_timezone = tenant.timezone;
    tenant_status = tenant.status;
    workspace_id = workspace.id;
    workspace_name = workspace.name;
    user_id = user.id;
    user_display_name = user.display_name;
    user_email = user.email;
    user_role_label = role;
    user_data_scopes = "TENANT_ALL" ∷ [];
    permissions = permissions_for_role (some role);
  })
