-- ===== src/Api/Sessions/LockedOut.antt =====
-- Failed logins lock the key of the e-mail address (apps/api/routes/auth.py on the lockout in memory of
-- src/aipy/modules/identity/infrastructure/login_lockout.py).
use aipy.Prelude.{
  ℕ, String, refl, sym, ap, subst, Bool, true, false, none, some, List, [], arith, ◌+◌, ◌<◌, ◌≡◌,
  ◌∙◌, ◌∷◌, leb, length, All,
}
use aipy.Identity.Claims.{Time, JwtTokenSettings}
use aipy.Identity.Payloads.{JwtLibrary}
use aipy.Identity.Revocations.{RevocationRepository}
use aipy.Identity.Lockout.{Lockout, or_zero, is_locked, record_failure, reset, forget_expired}
use aipy.Identity.Lockout.Budget.{one_failure, last_failure, is_locked_iff}
use aipy.Api.Errors.{Result, Failure, err}
use aipy.Api.Sessions.Accounts.{Directory, Texts, authenticate}
use aipy.Api.Sessions.{
  LoginLockout, LoginTimes, LoginIds, Entry, lockout_key, login, after_lock, after_authenticate,
}

-- `InMemoryLoginLockout(max_attempts, window)`
unfoldable pub in_memory_lockout : ℕ → Time → LoginLockout Lockout
unfolding is_locked record_failure reset
in_memory_lockout max_attempts window = record {
  is_locked = λ st key now. is_locked key now st;
  record_failure = λ st key now later. record_failure max_attempts window key now later st;
  reset = λ st key. reset key st;
}

pub record Attempt : Type 0 where
  pub password : String
  pub times : LoginTimes
  pub ids : LoginIds

module _ {Store Token : Type 0} (max_attempts : ℕ) (window : Time) (texts : Texts)
    (jwt : JwtLibrary Token) (settings : JwtTokenSettings)
    (revocations : RevocationRepository Store) (secure : Bool) (email : String) where
  abbrev pub try_login :
      Attempt → Lockout × Directory → Result (Entry Token) × (Lockout × Directory)
  try_login a w =
      login (in_memory_lockout max_attempts window) texts jwt settings revocations secure email
        a.password a.times a.ids w.0 w.1

  -- Logins one after another.
  unfoldable pub after_attempts : List Attempt → Lockout × Directory → Lockout × Directory
  unfolding login in_memory_lockout
  after_attempts [] w = w
  after_attempts (a ∷ attempts) w = after_attempts attempts (try_login a w).1

  -- The attempt has not the right password, or the account is not active.
  abbrev pub Fails : Directory → Attempt → Type 0
  Fails db a = authenticate texts db email a.password a.times.at_login a.ids.session_id ≡ none

  abbrev pub key : String
  key =
      lockout_key (in_memory_lockout max_attempts window) texts jwt settings revocations secure
        email

  is_locked-open :
      (st : Lockout) (now : Time) → st.locked_until key ≡ none → is_locked key now st ≡ (false, st)
  unfolding is_locked forget_expired
  is_locked-open st now open_key = rw open_key (rw open_key refl)

  failed_login :
      (a : Attempt) (st : Lockout) (db : Directory)
      → st.locked_until key ≡ none
      → Fails db a
      → (try_login a (st, db)).1
        ≡ (record_failure max_attempts window key a.times.at_failure a.times.at_deadline st, db)
  unfolding login in_memory_lockout
  failed_login a st db open_key fails =
      ap
        (λ r.
          (after_lock (in_memory_lockout max_attempts window) texts jwt settings revocations secure
            r email a.password a.times a.ids db).1)
        (is_locked-open st a.times.at_lock open_key)
      ∙ ap
          (λ o.
            (after_authenticate (in_memory_lockout max_attempts window) texts jwt settings
              revocations secure o email a.times a.ids st db).1)
          fails

  refused :
      (a : Attempt) (w : Lockout × Directory)
      → (is_locked key a.times.at_lock w.0).0 ≡ true
      → (try_login a w).0 ≡ err (Failure.http 429 "too many failed login attempts")
  unfolding login in_memory_lockout
  refused a w locked = of_answer (is_locked key a.times.at_lock w.0) locked
    where
      of_answer :
          (r : Bool × Lockout)
          → r.0 ≡ true
          → (after_lock
              (in_memory_lockout max_attempts window)
              texts
              jwt
              settings
              revocations
              secure
              r
              email
              a.password
              a.times
              a.ids
              w.1).0
            ≡ err (Failure.http 429 "too many failed login attempts")
      of_answer (true, st) h = refl
      of_answer (false, st) h = cc

  -- A login while the key is locked changes nothing.
  locked_attempt :
      (a : Attempt) (st : Lockout) (db : Directory) (deadline : Time)
      → st.locked_until key ≡ some deadline
      → a.times.at_lock < deadline
      → (try_login a (st, db)).1 ≡ (st, db)
  unfolding login in_memory_lockout is_locked forget_expired
  locked_attempt a st db deadline locked soon =
      let running : leb deadline a.times.at_lock ≡ false = ground arith in
      rw (locked, running, locked) refl

  -- Logins in a row while the key is locked.
  locked_attempts :
      (attempts : List Attempt) (st : Lockout) (db : Directory) (deadline : Time)
      → st.locked_until key ≡ some deadline
      → All (λ (a : Attempt). a.times.at_lock < deadline) attempts
      → after_attempts attempts (st, db) ≡ (st, db)
  unfolding after_attempts
  locked_attempts [] st db deadline locked soon = refl
  locked_attempts (a ∷ attempts) st db deadline locked (now, soon) =
      ap (after_attempts attempts) (locked_attempt a st db deadline locked now)
      ∙ locked_attempts attempts st db deadline locked soon

  attempts_count :
      (attempts : List Attempt) (st : Lockout) (db : Directory) (n : ℕ)
      → st.locked_until key ≡ none
      → or_zero (st.attempts key) ≡ n
      → n + length attempts < max_attempts
      → All (Fails db) attempts
      → ((after_attempts attempts (st, db)).0.locked_until key ≡ none)
        × (or_zero ((after_attempts attempts (st, db)).0.attempts key) ≡ n + length attempts)
        × ((after_attempts attempts (st, db)).1 ≡ db)
  unfolding after_attempts
  attempts_count [] st db n open_key count left fails = (open_key, omega (arith, count), refl)
  attempts_count (a ∷ attempts) st db n open_key count left (fails, rest) =
      let (still, counted) =
        one_failure max_attempts window key a.times.at_failure a.times.at_deadline st n open_key
          count (omega (arith, left)) in
      let (at_end, total, same) =
        attempts_count attempts
          (record_failure max_attempts window key a.times.at_failure a.times.at_deadline st) db
          (n + 1) still counted (omega (arith, left)) rest in
      rw (failed_login a st db open_key fails, after_attempts) (at_end, omega (arith, total), same)

  -- On the lockout in memory, for an open key without attempts: once as many logins have failed as
  -- the budget has, every login with that address before the window has passed since the last
  -- failure is answered 429, even with the right password, and whatever other logins with that
  -- address came in between.
  pub login_locked_out :
      (attempts between : List Attempt) (last next : Attempt) (st : Lockout) (db : Directory)
      → st.locked_until key ≡ none
      → st.attempts key ≡ none
      → All (Fails db) attempts
      → Fails db last
      → length attempts + 1 ≡ max_attempts
      → All (λ (a : Attempt). a.times.at_lock < last.times.at_deadline + window) between
      → next.times.at_lock < last.times.at_deadline + window
      → (try_login next
          (after_attempts between (try_login last (after_attempts attempts (st, db))).1)).0
        ≡ err (Failure.http 429 "too many failed login attempts")
  unfolding login
  login_locked_out attempts between last next st db open_key fresh fails fails_last full meanwhile
        soon =
      let (still, total, same) =
        attempts_count attempts st db 0 open_key (ap or_zero fresh) (omega (arith, full)) fails in
      let w = after_attempts attempts (st, db) in
      let failed =
        failed_login last w.0 w.1 still (subst (λ d. Fails d last) (sym same) fails_last) in
      let locked =
        last_failure max_attempts window key last.times.at_failure last.times.at_deadline w.0
          (length attempts) still (omega (arith, total)) (omega (arith, full)) in
      let s : Lockout =
        record_failure max_attempts window key last.times.at_failure last.times.at_deadline w.0 in
      let closed =
        (is_locked_iff key next.times.at_lock s).1
          (last.times.at_deadline + window, locked, soon) in
      ap (λ x. (try_login next (after_attempts between x)).0) failed
      ∙ ap (λ x. (try_login next x).0)
          (locked_attempts between s w.1 (last.times.at_deadline + window) locked meanwhile)
      ∙ refused next (s, w.1) closed
