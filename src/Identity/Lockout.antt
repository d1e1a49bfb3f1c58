-- ===== src/Identity/Lockout.antt =====
-- `InMemoryLoginLockout` of src/aipy/modules/identity/infrastructure/login_lockout.py. A dictionary
-- is a function, and what the clock answers is an argument, one for each reading.
pub mod Budget
mod Tests
use aipy.Prelude.{
  ℕ, String, Bool, false, not, Option, none, some, ◌+◌, ◌==◌, if◌then◌else◌, leb, is_none,
  string_eq, nat_eq,
}
use aipy.Identity.Claims.{Time}

pub record Lockout : Type 0 where
  pub attempts : String → Option ℕ
  pub locked_until : String → Option Time

abbrev pub new_lockout : Lockout
new_lockout = record { attempts = λ key. none; locked_until = λ key. none }

-- `d[key] = value` and `d.pop(key, None)`
abbrev pub stored : {A : Type 0} → String → Option A → (String → Option A) → String → Option A
stored key value d other = if other == key then value else d other

abbrev pub or_zero : Option ℕ → ℕ
or_zero none = 0
or_zero (some n) = n

-- `_forget_expired`
abbrev expired : Option Time → Time → Bool
expired none now = false
expired (some deadline) now = leb deadline now

unfoldable pub forget_expired : String → Time → Lockout → Lockout
forget_expired key now st =
    if expired (st.locked_until key) now
    then record st { locked_until = stored key none st.locked_until }
    else st

unfoldable pub is_locked : String → Time → Lockout → Bool × Lockout
unfolding forget_expired
is_locked key now st =
    let st' = forget_expired key now st in (not (is_none (st'.locked_until key)), st')

-- `record_failure`; the clock is read again for the new deadline.
unfoldable pub record_failure : ℕ → Time → String → Time → Time → Lockout → Lockout
unfolding forget_expired
record_failure max_attempts window key now later st =
    let st' = forget_expired key now st in
    let attempts = or_zero (st'.attempts key) + 1 in
    if leb max_attempts attempts
    then record {
      attempts = stored key none st'.attempts;
      locked_until = stored key (some (later + window)) st'.locked_until;
    }
    else record st' { attempts = stored key (some attempts) st'.attempts }

unfoldable pub reset : String → Lockout → Lockout
reset key st = record {
  attempts = stored key none st.attempts;
  locked_until = stored key none st.locked_until;
}
