-- ===== src/Identity/Lockout/Budget.antt =====
-- How many failures a key has, and how long it is locked then
-- (src/aipy/modules/identity/infrastructure/login_lockout.py).
use aipy.Prelude.{
  ℕ, String, refl, ap, inl, inr, true, false, Option, none, some, List, [], arith, eq_iff, eq_refl,
  ◌+◌, ◌≤◌, ◌<◌, ◌≡◌, ◌≢◌, ◌∷◌, ◌==◌, leb, Bool-cases, Option-cases, Decides, length, string_eq,
  nat_eq,
}
use aipy.Identity.Claims.{Time}
use aipy.Identity.Lockout.{Lockout, stored, or_zero, forget_expired, is_locked, record_failure}

-- Failures one after another, each with its readings of the clock.
unfoldable pub record_failures : ℕ → Time → String → List (Time × Time) → Lockout → Lockout
record_failures max_attempts window key [] st = st
record_failures max_attempts window key (t ∷ times) st =
    record_failures max_attempts window key times
      (record_failure max_attempts window key t.0 t.1 st)

stored-same :
    {A : Type 0} (key : String) (v : Option A) (d : String → Option A) → stored key v d key ≡ v
stored-same key v d = rw (eq_refl key) refl

stored-other :
    {A : Type 0} (key other : String) (v : Option A) (d : String → Option A)
    → other ≢ key
    → stored key v d other ≡ d other
stored-other key other v d apart = elim (Bool-cases (other == key)) [
  | inl e ↦ absurd (apart ((eq_iff other key).0 e))
  | inr e ↦ rw e refl
]

pub unlocked_stays :
    (key : String) (now : Time) (st : Lockout)
    → st.locked_until key ≡ none
    → forget_expired key now st ≡ st
unfolding forget_expired
unlocked_stays key now st open_key = rw open_key refl

pub one_failure :
    (max_attempts : ℕ) (window : Time) (key : String) (now later : Time) (st : Lockout) (n : ℕ)
    → st.locked_until key ≡ none
    → or_zero (st.attempts key) ≡ n
    → n + 1 < max_attempts
    → ((record_failure max_attempts window key now later st).locked_until key ≡ none)
      × (or_zero ((record_failure max_attempts window key now later st).attempts key) ≡ n + 1)
unfolding record_failure
one_failure max_attempts window key now later st n open_key count left =
    let below : leb max_attempts (n + 1) ≡ false = ground arith in
    rw (unlocked_stays key now st open_key, count, below)
      (open_key, ap or_zero (stored-same key (some (n + 1)) st.attempts))

pub last_failure :
    (max_attempts : ℕ) (window : Time) (key : String) (now later : Time) (st : Lockout) (n : ℕ)
    → st.locked_until key ≡ none
    → or_zero (st.attempts key) ≡ n
    → max_attempts ≤ n + 1
    → (record_failure max_attempts window key now later st).locked_until key ≡ some (later + window)
unfolding record_failure
last_failure max_attempts window key now later st n open_key count spent =
    let above : leb max_attempts (n + 1) ≡ true = ground arith in
    rw (unlocked_stays key now st open_key, count, above)
      (stored-same key (some (later + window)) st.locked_until)

failures_count :
    (max_attempts : ℕ) (window : Time) (key : String) (times : List (Time × Time)) (st : Lockout)
    (n : ℕ)
    → st.locked_until key ≡ none
    → or_zero (st.attempts key) ≡ n
    → n + length times < max_attempts
    → ((record_failures max_attempts window key times st).locked_until key ≡ none)
      × (or_zero ((record_failures max_attempts window key times st).attempts key)
          ≡ n + length times)
unfolding record_failures
failures_count max_attempts window key [] st n open_key count left =
    (open_key, omega (arith, count))
failures_count max_attempts window key (t ∷ times) st n open_key count left =
    let (still, counted) =
      one_failure max_attempts window key t.0 t.1 st n open_key count (omega (arith, left)) in
    let (at_end, total) =
      failures_count max_attempts window key times
        (record_failure max_attempts window key t.0 t.1 st) (n + 1) still counted
        (omega (arith, left)) in
    (at_end, omega (arith, total))

pub is_locked_iff :
    (key : String) (now : Time) (st : Lockout)
    → Decides (is_locked key now st).0 ((d : Time) × (st.locked_until key ≡ some d) × (now < d))
unfolding is_locked forget_expired
is_locked_iff key now st = elim (Option-cases (st.locked_until key)) [
  | inl e ↦ rw e (rw e (λ h. cc, λ h. cc (h.1)))
  | inr (d, e) ↦ elim (Bool-cases (leb d now)) [
    | inl past ↦
        rw (e, past)
          (rw (stored-same key none st.locked_until) (
            λ h. cc,
            λ h. let same : d ≡ h.0 = cc (h.1) in absurd (ground (arith, past, same, h.2)),
          ))
    | inr ahead ↦ rw (e, ahead) (rw e (λ h. (d, refl, ground (arith, ahead)), λ h. refl))
  ]
]

-- A key that is open and has no attempts is not locked after fewer failures than the budget.
pub budget_left :
    (max_attempts : ℕ) (window : Time) (key : String) (times : List (Time × Time)) (st : Lockout)
    (now : Time)
    → st.locked_until key ≡ none
    → st.attempts key ≡ none
    → length times < max_attempts
    → (is_locked key now (record_failures max_attempts window key times st)).0 ≡ false
budget_left max_attempts window key times st now open_key fresh left =
    let (at_end, total) =
      failures_count max_attempts window key times st 0 open_key (ap or_zero fresh)
        (omega (arith, left)) in
    elim (Bool-cases (is_locked key now (record_failures max_attempts window key times st)).0) [
      | inl locked ↦ let (d, e, ahead) = (is_locked_iff key now _).0 locked in cc (at_end, e)
      | inr e ↦ e
    ]

-- For a key that is open and has no attempts, the failure that spends the budget locks it, and the
-- lock holds exactly until the window after that failure has passed.
pub budget_spent :
    (max_attempts : ℕ) (window : Time) (key : String) (times : List (Time × Time)) (st : Lockout)
    (failed later now : Time)
    → st.locked_until key ≡ none
    → st.attempts key ≡ none
    → length times + 1 ≡ max_attempts
    → Decides
        (is_locked key now (
          record_failure max_attempts window key failed later
            (record_failures max_attempts window key times st))).0
        (now < later + window)
budget_spent max_attempts window key times st failed later now open_key fresh full =
    let (at_end, total) =
      failures_count max_attempts window key times st 0 open_key (ap or_zero fresh)
        (omega (arith, full)) in
    let locked =
      last_failure max_attempts window key failed later
        (record_failures max_attempts window key times st) (length times) at_end
        (omega (arith, total)) (omega (arith, full)) in
    let test = is_locked_iff key now _ in
    (
      λ h.
          let (d, e, ahead) = test.0 h in
          let same : d ≡ later + window = cc (e, locked) in omega (arith, same, ahead),
      λ h. test.1 (later + window, locked, h),
    )
