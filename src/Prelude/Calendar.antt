-- ===== src/Prelude/Calendar.antt =====
-- Dates of Python's `datetime`: a day is the number of days since 1970-01-01, and a point in time a
-- number of microseconds since the start of that day. Years past 9999 raise in Python and do not
-- here.
pub mod Months
use Prim.Native.Nat.{ℕ, zero, suc, ◌+◌, ◌-◌, ◌/◌, ◌%◌, ◌≤◌}
use mathlib.Core.Bool.{Bool, true, false, not, ◌&&◌, ◌||◌}
use native.Mathlib.Omega.{arith}
use aipy.Prelude.Tests.{ltb, nat_eq, ◌==◌, if◌then◌else◌}

abbrev pub day_length : ℕ
day_length = 86400000000

pub record YearMonth : Type 0 where
  pub year : ℕ
  pub month : ℕ

pub record Date : Type 0 where
  pub year_month : YearMonth
  pub day : ℕ

abbrev pub is_leap : ℕ → Bool
is_leap year = (year % 4 == 0) && (not (year % 100 == 0) || (year % 400 == 0))

abbrev pub days_in_month : YearMonth → ℕ
days_in_month m =
    if m.month == 2
    then (if is_leap m.year then 29 else 28)
    else if m.month == 4 || (m.month == 6 || (m.month == 9 || m.month == 11))
    then 30
    else 31

abbrev pub next_month : YearMonth → YearMonth
next_month m =
    if m.month == 12
    then record { year = m.year + 1; month = 1 }
    else record { year = m.year; month = m.month + 1 }

-- The date that is `n` days after the first of the month; the fuel bounds the months.
unfoldable pub date_after : ℕ → YearMonth → ℕ → Date
date_after zero m n = record { year_month = m; day = n + 1 }
date_after (suc fuel) m n = elim (ltb n (days_in_month m)) [
  | true ↦ record { year_month = m; day = n + 1 }
  | false ↦ date_after fuel (next_month m) (n - days_in_month m)
]

abbrev pub epoch : YearMonth
epoch = record { year = 1970; month = 1 }

-- A month has at least 28 days.
unfoldable pub date_of : ℕ → Date
unfolding date_after
date_of n = date_after (n / 28 + 1) epoch n

-- `d.replace(day=1)`
unfoldable pub first_of_month : ℕ → ℕ
unfolding date_of
first_of_month n = n - ((date_of n).day - 1)

pub days_in_month_bounds : (m : YearMonth) → (28 ≤ days_in_month m) × (days_in_month m ≤ 31)
days_in_month_bounds m = (ground arith, ground arith)
