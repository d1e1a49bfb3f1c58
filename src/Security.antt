-- ===== src/Security.antt =====
-- src/aipy/shared/security/context.py: the identity of a request. A `UUID` is only compared, so it
-- is a number.
use aipy.Prelude.{ℕ, String, Option, List}

abbrev pub Uuid : Type 0
Uuid = ℕ

pub data ActorType : Type 0 where
  user service : ActorType

pub record ActorContext : Type 0 where
  pub actor_id : Uuid
  pub actor_type : ActorType
  pub role_ids : List Uuid
  pub team_ids : List Uuid
  pub workspace_ids : List Uuid
  pub session_id : Option Uuid

-- The properties of the class read the fields of `actor`.
pub record TenantContext : Type 0 where
  pub tenant_id : Uuid
  pub actor : ActorContext
  pub open actor use *
  pub request_id : String
