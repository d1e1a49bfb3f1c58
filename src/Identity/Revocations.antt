-- ===== src/Identity/Revocations.antt =====
-- `TokenRevocationRepository` of src/aipy/modules/identity/domain/ports.py: its operations on the
-- state of a store, with the laws of a store that forgets nothing. The store of
-- in_memory_revocations.py, for local runs and tests, has them. The store of redis_revocations.py does
-- not: its entries expire, and Identity/Redis is about it.
pub mod InMemory
use aipy.Prelude.{Bool, true, not, ◌≡◌}
use aipy.Security.{Uuid}
use aipy.Identity.Claims.{TokenRevocation, SessionRevocation}

pub record RevocationRepository (Store : Type 0) : Type 0 where
  pub is_token_revoked : Store → Uuid → Bool
  pub is_session_revoked : Store → Uuid → Bool
  pub revoke_token : Store → TokenRevocation → Store
  pub consume_refresh_token : Store → TokenRevocation → Bool × Store
  pub revoke_session : Store → SessionRevocation → Store
  -- A token is consumed once, and is revoked then.
  pub consume_once :
      (st : Store) (r : TokenRevocation)
      → (consume_refresh_token st r).0 ≡ not (is_token_revoked st r.token_id)
  pub consume_revokes :
      (st : Store) (r : TokenRevocation)
      → is_token_revoked (consume_refresh_token st r).1 r.token_id ≡ true
  pub revoke_token_revokes :
      (st : Store) (r : TokenRevocation) → is_token_revoked (revoke_token st r) r.token_id ≡ true
  pub revoke_session_revokes :
      (st : Store) (r : SessionRevocation)
      → is_session_revoked (revoke_session st r) r.session_id ≡ true
  -- What is revoked stays revoked.
  pub consume_keeps :
      (st : Store) (r : TokenRevocation) (id : Uuid)
      → is_token_revoked st id ≡ true
      → is_token_revoked (consume_refresh_token st r).1 id ≡ true
  pub revoke_token_keeps :
      (st : Store) (r : TokenRevocation) (id : Uuid)
      → is_token_revoked st id ≡ true
      → is_token_revoked (revoke_token st r) id ≡ true
  pub revoke_session_keeps :
      (st : Store) (r : SessionRevocation) (id : Uuid)
      → is_token_revoked st id ≡ true
      → is_token_revoked (revoke_session st r) id ≡ true
