-- ===== src/Identity/Redis.antt =====
-- The stores on Redis: redis_revocations.py and `RedisLoginLockout` of login_lockout.py in
-- src/aipy/modules/identity/infrastructure. Redis is a parameter, with what its documentation says of
-- the commands; the time of a command is an argument, and the client reads no clock of its own. A
-- time to live is a number of seconds.
pub mod Expiry
pub mod Locks
mod Tests
use aipy.Prelude.{
  ℕ, String, Bool, false, not, [], ◌+◌, ◌-◌, ◌*◌, ◌/◌, ◌≤◌, ◌<◌, ◌≡◌, ◌≢◌, ◌∷◌, ◌==◌, if◌then◌else◌,
  ltb, leb, Decides, fstring, string_eq, nat_eq,
}
use Prim.Native.String
use aipy.Security.{Uuid}
use aipy.Identity.Claims.{Time, TokenRevocation, SessionRevocation}

abbrev pub second : Time
second = 1000000

-- The commands `EXISTS`, `SETEX`, `SET … NX EX`, `INCR`, `EXPIRE` and `DEL`. A key that has expired
-- is not there. What `GET` would answer for a counter is `counter`, zero for a missing key.
pub record Redis (R : Type 0) : Type 0 where
  pub exists : R → String → Time → Bool
  pub counter : R → String → Time → ℕ
  pub setex : R → String → ℕ → String → Time → R
  pub set_nx : R → String → String → ℕ → Time → Bool × R
  pub incr : R → String → Time → ℕ × R
  pub expire : R → String → ℕ → Time → R
  pub delete : R → String → R
  pub exists_setex :
      (r : R) (key : String) (ttl : ℕ) (value : String) (at now : Time)
      → at ≤ now
      → Decides (exists (setex r key ttl value at) key now) (now < at + ttl * second)
  pub set_nx_answer :
      (r : R) (key value : String) (ttl : ℕ) (at : Time)
      → (set_nx r key value ttl at).0 ≡ not (exists r key at)
  pub set_nx_new :
      (r : R) (key value : String) (ttl : ℕ) (at : Time)
      → exists r key at ≡ false
      → (set_nx r key value ttl at).1 ≡ setex r key ttl value at
  pub incr_counts : (r : R) (key : String) (at : Time) → (incr r key at).0 ≡ counter r key at + 1
  pub delete_other :
      (r : R) (key other : String) (now : Time)
      → other ≢ key
      → exists (delete r key) other now ≡ exists r other now
  pub delete_own : (r : R) (key : String) (now : Time) → exists (delete r key) key now ≡ false

-- `MIN_TTL_SECONDS`
abbrev pub min_ttl_seconds : ℕ
min_ttl_seconds = 60

-- `max(a, b)`
abbrev pub larger : ℕ → ℕ → ℕ
larger a b = if ltb a b then b else a

-- `_ttl`; a difference below zero counts as none, and the minimum is larger.
unfoldable pub ttl : Time → Time → ℕ
ttl expires_at now = larger ((expires_at - now) / second) min_ttl_seconds

module _ {R : Type 0} (redis : Redis R) (prefix : String) (show_id : Uuid → String) where
  -- `_token_key` and `_session_key`; `show_id` is `str` of a UUID.
  abbrev pub token_key : Uuid → String
  token_key id = fstring (prefix ∷ ":token:" ∷ show_id id ∷ [])

  abbrev pub session_key : Uuid → String
  session_key id = fstring (prefix ∷ ":session:" ∷ show_id id ∷ [])

  abbrev pub is_token_revoked : R → Uuid → Time → Bool
  is_token_revoked r id now = redis.exists r (token_key id) now

  abbrev pub is_session_revoked : R → Uuid → Time → Bool
  is_session_revoked r id now = redis.exists r (session_key id) now

  unfoldable pub revoke_token : R → TokenRevocation → Time → R
  unfolding ttl
  revoke_token r revocation now =
      redis.setex r (token_key revocation.token_id) (ttl revocation.expires_at now)
        revocation.reason now

  unfoldable pub consume_refresh_token : R → TokenRevocation → Time → Bool × R
  unfolding ttl
  consume_refresh_token r revocation now =
      redis.set_nx r (token_key revocation.token_id) revocation.reason
        (ttl revocation.expires_at now) now

  unfoldable pub revoke_session : R → SessionRevocation → Time → R
  unfolding ttl
  revoke_session r revocation now =
      redis.setex r (session_key revocation.session_id) (ttl revocation.expires_at now)
        revocation.reason now

module _ {R : Type 0} (redis : Redis R) (max_attempts : ℕ) (window : Time) (prefix : String) where
  -- `_attempt_key` and `_lock_key`
  abbrev pub attempt_key : String → String
  attempt_key key = fstring (prefix ∷ ":attempts:" ∷ key ∷ [])

  abbrev pub lock_key : String → String
  lock_key key = fstring (prefix ∷ ":locked:" ∷ key ∷ [])

  abbrev pub window_seconds : ℕ
  window_seconds = larger (window / second) 1

  abbrev pub is_locked : R → String → Time → Bool
  is_locked r key now = redis.exists r (lock_key key) now

  unfoldable pub record_failure : R → String → Time → R
  record_failure r key now =
      let (attempts, counted) = redis.incr r (attempt_key key) now in
      let timed =
        if attempts == 1
        then redis.expire counted (attempt_key key) window_seconds now
        else counted in
      if leb max_attempts attempts
      then redis.delete (redis.setex timed (lock_key key) window_seconds "locked" now)
          (attempt_key key)
      else timed

  unfoldable pub reset : R → String → R
  reset r key = redis.delete (redis.delete r (attempt_key key)) (lock_key key)
