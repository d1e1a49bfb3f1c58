-- ===== src/Identity/Redis/Expiry.antt =====
-- How long a revocation on Redis lasts, and how long the token service accepts the token
-- (redis_revocations.py against `_decode` of jwt_tokens.py).
use aipy.Prelude.{
  String, sym, ap, true, false, not, arith, ◌+◌, ◌-◌, ◌*◌, ◌/◌, ◌≤◌, ◌<◌, ◌≡◌, ◌∙◌, Decides,
  not_Decides, Decides-false, not-true,
}
use aipy.Prelude.Outcomes.{ok}
use aipy.Security.{Uuid}
use aipy.Identity.Claims.{Time, TokenRevocation, JwtTokenSettings}
use aipy.Identity.Payloads.{JwtLibrary}
use aipy.Identity.Revocations.{RevocationRepository}
use aipy.Identity.Tokens.{check_window}
use aipy.Identity.Redis.{Redis, second, ttl, token_key, is_token_revoked, consume_refresh_token}

ttl-long :
    (expires_at now : Time)
    → now + 60 * second ≤ expires_at
    → ttl expires_at now ≡ (expires_at - now) / second
unfolding ttl
ttl-long expires_at now h = ground arith

module _ {R : Type 0} (redis : Redis R) (prefix : String) (show_id : Uuid → String) where
  -- A consumption that goes through is there for its time to live, and no longer.
  consumed_iff :
      (r : R) (revocation : TokenRevocation) (at now : Time)
      → (consume_refresh_token redis prefix show_id r revocation at).0 ≡ true
      → at ≤ now
      → Decides
          (is_token_revoked redis prefix show_id
            (consume_refresh_token redis prefix show_id r revocation at).1
            revocation.token_id
            now)
          (now < at + ttl revocation.expires_at at * second)
  unfolding consume_refresh_token
  consumed_iff r revocation at now done later =
      let key = token_key redis prefix show_id revocation.token_id in
      let seconds = ttl revocation.expires_at at in
      let free : redis.exists r key at ≡ false =
        not-true _ (sym (redis.set_nx_answer r key revocation.reason seconds at) ∙ done) in
      rw (redis.set_nx_new r key revocation.reason seconds at free)
        (redis.exists_setex r key seconds revocation.reason at now later)

  -- On Redis, once a refresh token has been consumed, it can be consumed again exactly after the
  -- time to live that the first consumption gave it.
  pub consumed_once_in_time :
      (r : R) (revocation again : TokenRevocation) (at now : Time)
      → again.token_id ≡ revocation.token_id
      → (consume_refresh_token redis prefix show_id r revocation at).0 ≡ true
      → at ≤ now
      → Decides
          (consume_refresh_token redis prefix show_id
            (consume_refresh_token redis prefix show_id r revocation at).1
            again
            now).0
          (at + ttl revocation.expires_at at * second ≤ now)
  unfolding consume_refresh_token
  consumed_once_in_time r revocation again at now same done later =
      let kept = consumed_iff r revocation at now done later in
      let left = (consume_refresh_token redis prefix show_id r revocation at).1 in
      let answer =
        redis.set_nx_answer left (token_key redis prefix show_id again.token_id) again.reason
          (ttl again.expires_at now) now in
      let opposite = not_Decides _ kept in
      let same_key = ap (λ id. redis.exists left (token_key redis prefix show_id id) now) same in
      (
        λ h.
            let apart = opposite.0 (ap not (sym same_key) ∙ sym answer ∙ h) in omega (arith, apart),
        λ h. answer ∙ ap not same_key ∙ opposite.1 (λ k. omega (arith, h, k)),
      )

  -- On Redis, a refresh token that was consumed at least a minute before its expiry counts as live
  -- again when it has expired, although the token service accepts its times until the skew has
  -- passed as well.
  pub consumption_lapses :
      {Store Token : Type 0} (jwt : JwtLibrary Token) (settings : JwtTokenSettings)
      (revocations : RevocationRepository Store) (r : R) (revocation : TokenRevocation)
      (issued_at at now : Time)
      → (consume_refresh_token redis prefix show_id r revocation at).0 ≡ true
      → at + 60 * second ≤ revocation.expires_at
      → revocation.expires_at ≤ now
      → now < revocation.expires_at + settings.clock_skew
      → issued_at ≤ now
      → (check_window jwt settings revocations issued_at revocation.expires_at now ≡ ok tt)
        × (is_token_revoked redis prefix show_id
              (consume_refresh_token redis prefix show_id r revocation at).1
              revocation.token_id
              now
            ≡ false)
  unfolding check_window
  consumption_lapses jwt settings revocations r revocation issued_at at now done early past soon
        issued =
      let seconds = ttl-long revocation.expires_at at early in
      let kept = consumed_iff r revocation at now done (omega (arith, early, past)) in
      (ground arith, Decides-false _ kept (λ k. omega (arith, k, seconds, early, past)))
