-- ===== src/Organization.antt =====
-- The rows of tenants, users, members and roles: src/aipy/modules/tenancy/models.py,
-- organization/models.py and authorization/models.py, with the columns of
-- src/aipy/shared/db/mixins.py but for `created_at` and `updated_at`, which the database writes. The
-- relationships of the ORM are left to the queries.
use aipy.Prelude.{ℕ, String, Bool, Option}
use aipy.Security.{Uuid}

pub record Tenant : Type 0 where
  pub id : Uuid
  pub created_by : Option Uuid
  pub updated_by : Option Uuid
  pub row_version : ℕ
  pub code : String
  pub name : String
  pub status : String
  pub timezone : String
  pub locale : String
  pub data_region : String
  pub plan_id : Uuid
  pub settings_version : ℕ

pub record AppUser : Type 0 where
  pub id : Uuid
  pub created_by : Option Uuid
  pub updated_by : Option Uuid
  pub row_version : ℕ
  pub email : String
  pub phone : Option String
  pub password_hash : String
  pub display_name : String
  pub status : String
  pub mfa_enabled : Bool
  pub last_login_at : Option ℕ

pub record TenantMembership : Type 0 where
  pub id : Uuid
  pub tenant_id : Uuid
  pub created_by : Option Uuid
  pub updated_by : Option Uuid
  pub row_version : ℕ
  pub user_id : Uuid
  pub role_id : Option Uuid
  pub status : String
  pub member_no : Option String
  pub job_title : Option String
  pub joined_at : Option ℕ

pub record Role : Type 0 where
  pub id : Uuid
  pub tenant_id : Uuid
  pub created_by : Option Uuid
  pub updated_by : Option Uuid
  pub row_version : ℕ
  pub code : String
  pub name : String
  pub description : Option String
  pub is_builtin : Bool
  pub is_default : Bool

pub record RolePermission : Type 0 where
  pub id : ℕ
  pub role_id : Uuid
  pub permission_code : String
  pub data_scope : Option String

-- src/aipy/modules/brand/models.py; the creation time orders a query.
pub record Workspace : Type 0 where
  pub id : Uuid
  pub tenant_id : Uuid
  pub created_at : ℕ
  pub created_by : Option Uuid
  pub updated_by : Option Uuid
  pub row_version : ℕ
  pub code : String
  pub name : String
  pub status : String
  pub default_brand_id : Option Uuid
  pub created_by_membership_id : Uuid
