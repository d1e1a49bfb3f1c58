-- ===== src/Prelude/Calendar/Months.antt =====
-- Months as the calendar counts them, and that the dates of Prelude/Calendar are theirs.
use Prim.Native.Nat.{ℕ, zero, suc, ◌+◌, ◌-◌, ◌*◌, ◌/◌, ◌≤◌, ◌<◌}
use mathlib.Core.Path.{◌≡◌, refl, sym, ap, subst, ◌∙◌}
use mathlib.Core.Logic.{inl, inr}
use mathlib.Core.Bool.{false}
use native.Mathlib.Omega.{arith}
use aipy.Prelude.Tests.{ltb, ltb→lt, lt→ltb, Bool-cases}
use aipy.Prelude.Calendar.{
  YearMonth, Date, days_in_month, next_month, date_after, epoch, date_of, first_of_month,
  days_in_month_bounds,
}

-- `n` days after the first of the month is the date: in the month, or past its end.
pub data IsDate : YearMonth → ℕ → Date → Type 0 where
  within :
      {m : YearMonth} {n : ℕ} {d : Date}
      → n < days_in_month m
      → d ≡ record { year_month = m; day = n + 1 }
      → IsDate m n d
  past :
      {m : YearMonth} {n : ℕ} {d : Date} (k : ℕ)
      → n ≡ days_in_month m + k
      → IsDate (next_month m) k d
      → IsDate m n d

pub date_after-IsDate :
    (fuel : ℕ) (m : YearMonth) (n : ℕ) → n < 28 * fuel → IsDate m n (date_after fuel m n)
unfolding date_after
date_after-IsDate zero m n h = absurd (omega (arith, h))
date_after-IsDate (suc fuel) m n h =
    let (low, _high) = days_in_month_bounds m in
    elim (Bool-cases (ltb n (days_in_month m))) [
      | inl e ↦ rw (e, date_after) (within (ltb→lt n (days_in_month m) e) refl)
      | inr e ↦
          let over : days_in_month m ≤ n = ground arith in
          rw (e, date_after)
            (past (n - days_in_month m) (omega (arith, over)) (
              date_after-IsDate fuel (next_month m) (n - days_in_month m)
                (omega (arith, over, low, h))))
    ]

pub IsDate-date_after :
    (fuel : ℕ) (m : YearMonth) (n : ℕ) (d : Date)
    → n < 28 * fuel
    → IsDate m n d
    → date_after fuel m n ≡ d
unfolding date_after
IsDate-date_after zero m n d h k = absurd (omega (arith, h))
IsDate-date_after (suc fuel) m n d h (within small shape) =
    rw (lt→ltb n (days_in_month m) small, date_after) (sym shape)
IsDate-date_after (suc fuel) m n d h (past k e rest) =
    let (low, _high) = days_in_month_bounds m in
    let miss : ltb n (days_in_month m) ≡ false = ground arith in
    let same : n - days_in_month m ≡ k = omega (arith, e) in
    rw (miss, same, date_after)
      (IsDate-date_after fuel (next_month m) k d (omega (arith, e, low, h)) rest)

pub date_of-IsDate : (n : ℕ) → IsDate epoch n (date_of n)
unfolding date_of
date_of-IsDate n = date_after-IsDate (n / 28 + 1) epoch n (omega arith)

pub IsDate-date_of : (n : ℕ) (d : Date) → IsDate epoch n d → date_of n ≡ d
unfolding date_of
IsDate-date_of n d h = IsDate-date_after (n / 28 + 1) epoch n d (omega arith) h

pub IsDate-bounds :
    (m : YearMonth) (n : ℕ) (d : Date)
    → IsDate m n d
    → (1 ≤ d.day) × (d.day ≤ days_in_month d.year_month) × (d.day ≤ n + 1)
IsDate-bounds m n d (within small shape) = rw shape (omega arith, omega (arith, small), omega arith)
IsDate-bounds m n d (past k e rest) =
    let (low, high, before) = IsDate-bounds (next_month m) k d rest in
    (low, high, omega (arith, e, before))

-- The other days of the month of a date.
pub IsDate-same_month :
    (m : YearMonth) (n : ℕ) (d : Date) (j : ℕ)
    → IsDate m n d
    → j < days_in_month d.year_month
    → IsDate m (n - (d.day - 1) + j) (record { year_month = d.year_month; day = j + 1 })
IsDate-same_month m n d j (within small shape) h =
    let month = ap (λ (x : Date). x.year_month) shape in
    let day = ap (λ (x : Date). x.day) shape in
    let start : n - (d.day - 1) + j ≡ j = omega (arith, day) in
    rw (start, month) (within (subst (λ x. j < days_in_month x) month h) refl)
IsDate-same_month m n d j (past k e rest) h =
    let (low, high, before) = IsDate-bounds (next_month m) k d rest in
    past (k - (d.day - 1) + j) (omega (arith, e, before, low))
      (IsDate-same_month (next_month m) k d j rest h)

-- The days of the month after it.
pub IsDate-next_month :
    (m : YearMonth) (n : ℕ) (d : Date) (j : ℕ)
    → IsDate m n d
    → j < days_in_month (next_month d.year_month)
    → IsDate m
        (n - (d.day - 1) + days_in_month d.year_month + j)
        (record { year_month = next_month d.year_month; day = j + 1 })
IsDate-next_month m n d j (within small shape) h =
    let month = ap (λ (x : Date). x.year_month) shape in
    let day = ap (λ (x : Date). x.day) shape in
    let start : n - (d.day - 1) ≡ 0 = omega (arith, day) in
    rw (start, month)
      (past j (omega arith) (within (subst (λ x. j < days_in_month (next_month x)) month h) refl))
IsDate-next_month m n d j (past k e rest) h =
    let (low, high, before) = IsDate-bounds (next_month m) k d rest in
    past (k - (d.day - 1) + days_in_month d.year_month + j) (omega (arith, e, before, low))
      (IsDate-next_month (next_month m) k d j rest h)

-- A month that starts on day `n` ends 28 to 31 days later, and 32 days later is in the next one.
pub first_of_next_month :
    (n : ℕ)
    → let d = date_of n in
      let start = first_of_month n in
      (date_of start ≡ record { year_month = d.year_month; day = 1 })
      × (start ≤ n)
      × (n < first_of_month (start + 32))
      × (date_of (first_of_month (start + 32))
          ≡ record { year_month = next_month d.year_month; day = 1 })
unfolding first_of_month
first_of_next_month n =
    let d = date_of n in
    let is = date_of-IsDate n in
    let (low, high, before) = IsDate-bounds epoch n d is in
    let (short, long) = days_in_month_bounds d.year_month in
    let (short', _l) = days_in_month_bounds (next_month d.year_month) in
    let start = n - (d.day - 1) in
    let length = days_in_month d.year_month in
    let first = IsDate-same_month epoch n d 0 is (omega (arith, short)) in
    let second =
      IsDate-next_month epoch n d (32 - length) is (omega (arith, short, short', long)) in
    let third = IsDate-next_month epoch n d 0 is (omega (arith, short')) in
    let same₁ : start + 0 ≡ start = omega arith in
    let same₂ : start + length + (32 - length) ≡ start + 32 = omega (arith, long) in
    let day : (date_of (start + 32)).day ≡ (32 - length) + 1 =
      ap (λ (x : Date). x.day)
        (IsDate-date_of (start + 32) _ (
          subst
            (λ x.
              IsDate epoch x
                (record { year_month = next_month d.year_month; day = (32 - length) + 1 }))
            same₂ second)) in
    let end : start + 32 - ((date_of (start + 32)).day - 1) ≡ start + length + 0 =
      omega (arith, day, long, short) in
    (
      IsDate-date_of start _
          (subst (λ x. IsDate epoch x (record { year_month = d.year_month; day = 1 })) same₁ first),
      omega arith,
      omega (arith, end, high, before, low),
      ap date_of end ∙ IsDate-date_of (start + length + 0) _ third,
    )
