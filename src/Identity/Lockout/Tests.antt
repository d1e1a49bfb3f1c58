-- ===== src/Identity/Lockout/Tests.antt =====
-- Five attempts, fifteen minutes.
use aipy.Prelude.{refl, false, none, List, [], ◌≡◌, ◌∷◌}
use aipy.Identity.Claims.{Time}
use aipy.Identity.Lockout.{new_lockout, is_locked, record_failure, reset, forget_expired}
use aipy.Identity.Lockout.Budget.{record_failures}

abbrev four : List (Time × Time)
four = (100, 101) ∷ (200, 201) ∷ (300, 301) ∷ (400, 401) ∷ []

lock_ends_test :
    (is_locked "a@b" 1501
      (record_failure 5 1000 "a@b" 500 501 (record_failures 5 1000 "a@b" four new_lockout))).0
    ≡ false
unfolding is_locked record_failure record_failures
lock_ends_test = refl

reset_test : (reset "a@b" (record_failures 5 1000 "a@b" four new_lockout)).attempts "a@b" ≡ none
unfolding reset record_failures record_failure forget_expired
reset_test = refl
