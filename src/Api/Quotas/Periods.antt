-- ===== src/Api/Quotas/Periods.antt =====
-- The periods of quotas: `_period_bounds` of apps/api/repositories.py.
use aipy.Prelude.{
  ℕ, String, refl, sym, false, none, List, [], arith, eq_iff, ◌+◌, ◌-◌, ◌*◌, ◌/◌, ◌≤◌, ◌<◌, ◌≡◌,
  ◌∙◌, ◌≢◌, ◌&&◌, ◌∷◌, ◌==◌, Decides-false, find, All, In, contains_iff, string_eq, nat_eq,
}
use aipy.Prelude.Calendar.{day_length, next_month, date_of, first_of_month}
use aipy.Prelude.Calendar.Months.{first_of_next_month}
use aipy.Api.Rows.{Time}
use aipy.Api.Quotas.{
  Moment, midnight, local_bounds, QuotaPolicy, QuotaUsageBucket, usage_dto, alert_level,
  gauge_metrics, period_bounds, Zones, zone_or_utc,
}

-- The day of a reading of the wall clock.
abbrev pub day_of : Moment → ℕ
day_of moment = moment.wall / day_length

-- The bounds are two midnights with the reading between them.
pub record Contains (moment : Moment) (bounds : Moment × Moment) : Type 0 where
  pub first_day : ℕ
  pub last_day : ℕ
  pub starts : bounds.0 ≡ midnight first_day
  pub ends : bounds.1 ≡ midnight last_day
  pub since : bounds.0.wall ≤ moment.wall
  pub until : moment.wall < bounds.1.wall

day_bounds :
    (n a b : ℕ)
    → a ≤ n / day_length
    → n / day_length < b
    → (a * day_length ≤ n) × (n < b * day_length)
day_bounds n a b h k = (omega (arith, h), omega (arith, k))

-- The day of the current time has it in it.
pub daily_period : (moment : Moment) → Contains moment (local_bounds "DAILY" moment)
unfolding local_bounds
daily_period moment =
    let (since, until) =
      day_bounds moment.wall (day_of moment) (day_of moment + 1) (omega arith) (omega arith) in
    record {
      first_day = day_of moment;
      last_day = day_of moment + 1;
      starts = refl;
      ends = refl;
      since = since;
      until = until;
    }

-- The period of a policy that is neither daily nor rolling goes on the wall clock from midnight of
-- the first of the month to midnight of the first of the next month, with the current time in it.
pub monthly_period :
    (period_type : String) (moment : Moment)
    → period_type ≢ "DAILY"
    → period_type ≢ "ROLLING_30D"
    → (c : Contains moment (local_bounds period_type moment)) × (date_of c.first_day
        ≡ record { year_month = (date_of (day_of moment)).year_month; day = 1 })
      × (date_of c.last_day
          ≡ record { year_month = next_month (date_of (day_of moment)).year_month; day = 1 })
unfolding local_bounds
monthly_period period_type moment not_daily not_rolling =
    let daily = Decides-false _ (eq_iff period_type "DAILY") not_daily in
    let rolling = Decides-false _ (eq_iff period_type "ROLLING_30D") not_rolling in
    let today = day_of moment in
    let (first, before, after, last) = first_of_next_month today in
    let (since, until) =
      day_bounds moment.wall (first_of_month today) (first_of_month (first_of_month today + 32))
        before after in
    rw (daily, rolling)
      (
        record {
          first_day = first_of_month today;
          last_day = first_of_month (first_of_month today + 32);
          starts = refl;
          ends = refl;
          since = since;
          until = until;
        },
        first,
        last,
      )

-- The zone that the policy's timezone names is always the same time ahead of UTC.
pub record IsAhead (zones : Zones) (timezone : String) (offset : ℕ) : Type 0 where
  pub ahead :
      (now : Time)
      → zones.localized (zone_or_utc zones (zones.zone_info timezone)) now
        ≡ record { wall = now + offset; fold = 0 }
  pub back :
      (moment : Moment)
      → zones.to_utc (zone_or_utc zones (zones.zone_info timezone)) moment ≡ moment.wall - offset

-- The bucket was stored for the rolling period of another reading of the clock, which was at least
-- thirty days after the beginning of time.
pub record StoredAtOther (zones : Zones) (timezone : String) (now : Time) (b : QuotaUsageBucket)
    : Type 0 where
  pub reading : Time
  pub late : 30 * day_length ≤ reading
  pub other : reading ≢ now
  pub start : b.period_start ≡ (period_bounds zones "ROLLING_30D" timezone reading).0

rolling_start :
    (zones : Zones) (timezone : String) (offset : ℕ) (now : Time)
    → IsAhead zones timezone offset
    → (period_bounds zones "ROLLING_30D" timezone now).0 ≡ (now + offset - 30 * day_length) - offset
unfolding period_bounds local_bounds
rolling_start zones timezone offset now zone = rw (zone.ahead now) (zone.back _)

different_start :
    (zones : Zones) (timezone : String) (offset : ℕ) (now : Time) (b : QuotaUsageBucket)
    → IsAhead zones timezone offset
    → 30 * day_length ≤ now
    → StoredAtOther zones timezone now b
    → b.period_start ≢ (period_bounds zones "ROLLING_30D" timezone now).0
different_start zones timezone offset now b zone late h same =
    let e : (h.reading + offset - 30 * day_length) - offset
        ≡ (now + offset - 30 * day_length) - offset =
      sym (rolling_start zones timezone offset h.reading zone)
      ∙ sym h.start
      ∙ same
      ∙ rolling_start zones timezone offset now zone in
    h.other (omega (arith, e, late, h.late))

no_bucket :
    (metric : String) (start : Time) (buckets : List QuotaUsageBucket)
    → All (λ (b : QuotaUsageBucket). b.period_start ≢ start) buckets
    → find (λ (b : QuotaUsageBucket). b.metric == metric && b.period_start == start) buckets ≡ none
no_bucket metric start [] h = refl
no_bucket metric start (b ∷ bs) (h, hs) =
    let miss : (b.period_start == start) ≡ false = ground (arith, h) in
    ground (arith, no_bucket metric start bs hs)

starts_apart :
    (zones : Zones) (timezone : String) (offset : ℕ) (now : Time) (bs : List QuotaUsageBucket)
    → IsAhead zones timezone offset
    → 30 * day_length ≤ now
    → All (StoredAtOther zones timezone now) bs
    → All
        (λ (b : QuotaUsageBucket).
          b.period_start ≢ (period_bounds zones "ROLLING_30D" timezone now).0)
        bs
starts_apart zones timezone offset now [] zone late h = tt
starts_apart zones timezone offset now (b ∷ bs) zone late (h, hs) = (
  different_start zones timezone offset now b zone late h,
  starts_apart zones timezone offset now bs zone late hs,
)

-- In a zone at a fixed time ahead of UTC, a policy with a rolling period on a metric other than a
-- gauge is shown without use and at the level of no use, when every bucket was stored for the
-- rolling period of another reading of the clock, even a microsecond apart, and no reading is in
-- the first thirty days of time.
pub rolling_use_is_lost :
    (zones : Zones) (offset : ℕ) (now : Time) (buckets : List QuotaUsageBucket)
    (policy : QuotaPolicy)
    → IsAhead zones policy.timezone offset
    → policy.period_type ≡ "ROLLING_30D"
    → ¬ In policy.metric gauge_metrics
    → 30 * day_length ≤ now
    → All (StoredAtOther zones policy.timezone now) buckets
    → let shown =
        usage_dto buckets policy (period_bounds zones policy.period_type policy.timezone now) in
      (shown.used ≡ 0) × (shown.level ≡ alert_level 0 policy.soft_limit policy.hard_limit)
unfolding usage_dto
rolling_use_is_lost zones offset now buckets policy zone rolling counted late stored =
    let no_gauge = Decides-false _ (contains_iff gauge_metrics policy.metric) counted in
    let nothing =
      no_bucket policy.metric (period_bounds zones "ROLLING_30D" policy.timezone now).0 buckets
        (starts_apart zones policy.timezone offset now buckets zone late stored) in
    rw (rolling, no_gauge, nothing) (refl, refl)
