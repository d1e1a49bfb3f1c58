-- ===== src/Identity/Redis/Locks.antt =====
-- The failure that spends the budget locks the key on Redis (`RedisLoginLockout` of
-- src/aipy/modules/identity/infrastructure/login_lockout.py).
use aipy.Prelude.{
  ℕ, String, sym, ap, true, arith, ◌+◌, ◌*◌, ◌≤◌, ◌<◌, ◌≡◌, ◌∙◌, ◌≢◌, leb, le→leb, Decides,
}
use Prim.Native.Char.{code}
use Prim.Native.String
use text.Mathlib.TextLemmas.{nil-append, cons-append}
use aipy.Identity.Claims.{Time}
use aipy.Identity.Redis.{
  Redis, second, attempt_key, lock_key, window_seconds, is_locked, record_failure,
}

append_apart : (s a b : String) → a ≢ b → String.◌++◌ s a ≢ String.◌++◌ s b
append_apart String.[] a b h = λ e. h (sym (nil-append a) ∙ e ∙ nil-append b)
append_apart (String.◌∷◌ c s) a b h =
    λ e. append_apart s a b h (tail (sym (cons-append c s a) ∙ e ∙ cons-append c s b))
  where
    tail : {x y : String} → String.◌∷◌ c x ≡ String.◌∷◌ c y → x ≡ y
    tail e = cc e

-- The code of the second character.
second_code : String → ℕ
second_code (String.◌∷◌ c (String.◌∷◌ d s)) = code d
second_code s = 0

names_apart : (x y : String) → String.◌++◌ ":locked:" x ≢ String.◌++◌ ":attempts:" y
unfolding second_code
names_apart x y e = let same : 108 ≡ 97 = sym left ∙ ap second_code e ∙ right in omega (arith, same)
  where
    left : second_code (String.◌++◌ ":locked:" x) ≡ 108
    left =
        ap second_code
          (cons-append ":" "locked:" x ∙ ap (String.◌∷◌ ":") (cons-append "l" "ocked:" x))

    right : second_code (String.◌++◌ ":attempts:" y) ≡ 97
    right =
        ap second_code
          (cons-append ":" "attempts:" y ∙ ap (String.◌∷◌ ":") (cons-append "a" "ttempts:" y))

module _ {R : Type 0} (redis : Redis R) (max_attempts : ℕ) (window : Time) (prefix : String) where
  keys_apart :
      (key : String)
      → lock_key redis max_attempts window prefix key
        ≢ attempt_key redis max_attempts window prefix key
  keys_apart key = append_apart prefix _ _ (names_apart _ _)

  -- A failure that spends the budget locks the key for the window.
  pub record_failure_locks :
      (r : R) (key : String) (at now : Time)
      → max_attempts ≤ redis.counter r (attempt_key redis max_attempts window prefix key) at + 1
      → at ≤ now
      → Decides
          (is_locked redis max_attempts window prefix
            (record_failure redis max_attempts window prefix r key at)
            key
            now)
          (now < at + window_seconds redis max_attempts window prefix * second)
  unfolding record_failure
  record_failure_locks r key at now spent later =
      let counts = redis.incr_counts r (attempt_key redis max_attempts window prefix key) at in
      let full : leb max_attempts
            (redis.incr r (attempt_key redis max_attempts window prefix key) at).0
          ≡ true =
        rw counts (le→leb _ _ spent) in
      rw
        (
          full,
          redis.delete_other _ (attempt_key redis max_attempts window prefix key)
              (lock_key redis max_attempts window prefix key) now (keys_apart key),
        )
        (redis.exists_setex _ (lock_key redis max_attempts window prefix key)
          (window_seconds redis max_attempts window prefix) "locked" at now later)
