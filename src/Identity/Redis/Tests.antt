-- ===== src/Identity/Redis/Tests.antt =====
-- Redis played by the values of keys with their times of expiry.
use aipy.Prelude.{
  ℕ, String, refl, ap, Bool, true, false, not, Option, none, some, arith, eq_iff, eq_refl, ◌+◌, ◌*◌,
  ◌≤◌, ◌<◌, ◌≡◌, ◌==◌, if◌then◌else◌, ltb, ltb→lt, lt→ltb, Decides, if_true, if_false,
  Decides-false, string_eq, nat_eq,
}
use aipy.Prelude.Outcomes.{ok}
use aipy.Security.{Uuid}
use aipy.Identity.Claims.{Time, TokenRevocation}
use aipy.Identity.Fixtures.{toy, settings}
use aipy.Identity.Revocations.InMemory.{in_memory}
use aipy.Identity.Tokens.{check_window}
use aipy.Identity.Redis.{Redis, second, ttl, is_token_revoked, consume_refresh_token}
use aipy.Identity.Redis.Expiry.{consumed_once_in_time, consumption_lapses}

-- A counter, and when the key expires; a counter alone never does.
abbrev Keys : Type 0
Keys = String → ℕ × Option Time

abbrev with_key : Keys → String → ℕ × Option Time → Keys
with_key r key value other = if other == key then value else r other

abbrev alive : Option Time → Time → Bool
alive none now = false
alive (some end) now = ltb now end

abbrev set_if : Bool → Keys → String → ℕ → Time → Bool × Keys
set_if true r key seconds at = (false, r)
set_if false r key seconds at = (true, with_key r key (0, some (at + seconds * second)))

set_if-answer :
    (b : Bool) (r : Keys) (key : String) (seconds : ℕ) (at : Time)
    → (set_if b r key seconds at).0 ≡ not b
set_if-answer true r key seconds at = refl
set_if-answer false r key seconds at = refl

with_key-own : (r : Keys) (key : String) (v : ℕ × Option Time) → with_key r key v key ≡ v
with_key-own r key v = if_true v (r key) (eq_refl key)

abbrev keys : Redis Keys
keys = record {
  exists = λ r key now. alive (r key).1 now;
  counter = λ r key now. (r key).0;
  setex = λ r key seconds value at. with_key r key (0, some (at + seconds * second));
  set_nx = λ r key value seconds at. set_if (alive (r key).1 at) r key seconds at;
  incr = λ r key at. ((r key).0 + 1, with_key r key ((r key).0 + 1, (r key).1));
  expire = λ r key seconds at. with_key r key ((r key).0, some (at + seconds * second));
  delete = λ r key. with_key r key (0, none);
  exists_setex = λ r key seconds value at now later.
      rw (with_key-own r key (0, some (at + seconds * second)))
        (ltb→lt now (at + seconds * second), lt→ltb now (at + seconds * second));
  set_nx_answer = λ r key value seconds at. set_if-answer (alive (r key).1 at) r key seconds at;
  set_nx_new = λ r key value seconds at free. ap (λ b. (set_if b r key seconds at).1) free;
  incr_counts = λ r key at. refl;
  delete_other = λ r key other now apart.
      ap (λ v. alive v.1 now)
        (if_false (0, none) (r other) (Decides-false _ (eq_iff other key) apart));
  delete_own = λ r key now. ap (λ v. alive v.1 now) (with_key-own r key (0, none));
}

abbrev no_keys : Keys
no_keys key = (0, none)

abbrev show_id : Uuid → String
show_id id = "id"

abbrev rotation : TokenRevocation
rotation = record {
  token_id = 502;
  session_id = 40;
  expires_at = 2000000000;
  reason = "refresh_rotation";
}

consumed : (consume_refresh_token keys "aipy:rev" show_id no_keys rotation 1000000000).0 ≡ true
unfolding consume_refresh_token
consumed = refl

once : 1000000000 ≤ 1500000000
once = omega arith

consumed_once_in_time_example :
    Decides
      (consume_refresh_token keys "aipy:rev" show_id
        (consume_refresh_token keys "aipy:rev" show_id no_keys rotation 1000000000).1
        rotation
        1500000000).0
      (1000000000 + ttl 2000000000 1000000000 * second ≤ 1500000000)
consumed_once_in_time_example =
    consumed_once_in_time keys "aipy:rev" show_id no_keys rotation rotation 1000000000 1500000000
      refl consumed once

early : 1000000000 + 60 * second ≤ 2000000000
early = omega arith

past : 2000000000 ≤ 2010000000
past = omega arith

soon : 2010000000 < 2000000000 + settings.clock_skew
soon = omega arith

issued : 900000000 ≤ 2010000000
issued = omega arith

-- Ten seconds past its expiry, with a skew of thirty.
consumption_lapses_example :
    (check_window toy settings in_memory 900000000 2000000000 2010000000 ≡ ok tt)
    × (is_token_revoked keys "aipy:rev" show_id
          (consume_refresh_token keys "aipy:rev" show_id no_keys rotation 1000000000).1
          502
          2010000000
        ≡ false)
consumption_lapses_example =
    consumption_lapses keys "aipy:rev" show_id toy settings in_memory no_keys rotation 900000000
      1000000000 2010000000 consumed early past soon issued
