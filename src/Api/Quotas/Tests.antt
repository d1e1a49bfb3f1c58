-- ===== src/Api/Quotas/Tests.antt =====
-- A quota is set, and its use is shown.
use aipy.Prelude.{
  ℕ, String, refl, ap, inl, inr, false, Option, none, some, List, [], arith, ◌+◌, ◌-◌, ◌*◌, ◌≤◌,
  ◌≡◌, ◌↔◌, ◌∷◌, ◌==◌, In, string_eq, nat_eq, ◌≢◌,
}
use aipy.Prelude.Calendar.{date_of}
use aipy.Security.{Uuid}
use aipy.Api.Errors.{ok}
use aipy.Api.Rows.{Time}
use aipy.Api.Store.Slots.{slot, slot_inserts, slot_same}
use aipy.Api.Store.Lenses.{Part, inserts_in, table_in, replace_inserted-some, replace_flushed-some}
use aipy.Api.Quotas.{
  QuotaPolicy, quota_policy_row, QuotaUsageBucket, Moment, Zones, midnight, local_bounds, usage_dto,
  alert_level, gauge_metrics, period_bounds,
}
use aipy.Api.Quotas.Policies.{
  QuotaStore, UpsertQuotaPolicyRequest, detail, get_quota_policy, upsert_quota_policy,
}
use aipy.Api.Quotas.Alerts.{Alert, alert_level_iff}
use aipy.Api.Quotas.Periods.{
  Contains, day_of, monthly_period, IsAhead, StoredAtOther, rolling_use_is_lost,
}
use aipy.Api.Quotas.Upserts.{
  LimitsFit, Written, quota_policy_discrete, upsert_quota_policy-ok, get_after_upsert,
}

record QuotaDb : Type 0 where
  policy : Option QuotaPolicy
  buckets : List QuotaUsageBucket

abbrev policy_part : Part QuotaDb (Option QuotaPolicy)
policy_part = record {
  view = λ db. db.policy;
  replace = λ p db. record db { policy = p };
  replaced = λ p db. refl;
  unchanged = λ db. refl;
}

-- One policy, which suits every constraint on several.
abbrev ledger : QuotaStore QuotaDb
unfolding table_in slot inserts_in slot_inserts
ledger = record {
  policies = table_in policy_part (slot quota_policy_row quota_policy_discrete (λ a b. a == b));
  added = inserts_in policy_part (slot_inserts quota_policy_row);
  buckets = λ db t. db.buckets;
  by_metric =
      λ db t. (slot quota_policy_row quota_policy_discrete (λ a b. a == b)).rows db.policy t;
  by_metric_iff = λ db t p. (λ h. h, λ h. h);
  same_rows = λ db t. refl;
  one_per_metric = λ db t x y h k e. slot_same quota_policy_row db.policy t x y h k;
  insert_frame = λ db db' p h t.
      let (s, _o, after) = replace_inserted-some policy_part db db' _ h in
      ap (λ (d : QuotaDb). d.buckets) after;
  flush_frame = λ db db' old new r h t.
      let (s, _o, after) = replace_flushed-some policy_part db db' r _ h in
      ap (λ (d : QuotaDb). d.buckets) after;
}

-- Eight hours ahead, wherever the name leads.
abbrev eight_hours : Time
eight_hours = 28800000000

abbrev zones : Zones
zones = record {
  Zone = ℕ;
  zone_info = λ name. some eight_hours;
  utc = 0;
  localized = λ zone now. record { wall = now + zone; fold = 0 };
  to_utc = λ zone moment. moment.wall - zone;
}

-- 2024-02-29, five past ten in the evening, on the wall clock.
abbrev leap_day : Moment
leap_day = record { wall = 1709244300000000; fold = 0 }

leap_day_date :
    date_of (day_of leap_day) ≡ record { year_month = record { year = 2024; month = 2 }; day = 29 }
unfolding date_of
leap_day_date = refl

leap_month : local_bounds "MONTHLY" leap_day ≡ (midnight 19754, midnight 19783)
unfolding local_bounds
leap_month = refl

no_daily : ◌≢◌ {A = String} "MONTHLY" "DAILY"
no_daily h = cc

no_rolling : ◌≢◌ {A = String} "MONTHLY" "ROLLING_30D"
no_rolling h = cc

monthly_period_example :
    (c : Contains leap_day (local_bounds "MONTHLY" leap_day)) × (date_of c.first_day
      ≡ record { year_month = record { year = 2024; month = 2 }; day = 1 })
    × (date_of c.last_day ≡ record { year_month = record { year = 2024; month = 3 }; day = 1 })
unfolding date_of
monthly_period_example = monthly_period "MONTHLY" leap_day no_daily no_rolling

alert_level_iff_example :
    (alert_level 80 (some 80) (some 100) ≡ "WARNING") ↔ Alert 80 (some 80) (some 100) "WARNING"
alert_level_iff_example = alert_level_iff 80 (some 80) (some 100) "WARNING"

abbrev request : UpsertQuotaPolicyRequest
request = record {
  period_type = "ROLLING_30D";
  soft_limit = some 80;
  hard_limit = some 100;
  overage_allowed = false;
  status = "ACTIVE";
}

abbrev policy : QuotaPolicy
policy = record {
  id = 5;
  tenant_id = 1;
  row_version = 0;
  metric = "AI_COST";
  period_type = "ROLLING_30D";
  soft_limit = some 80;
  hard_limit = some 100;
  overage_allowed = false;
  timezone = "Asia/Shanghai";
  status = "ACTIVE";
}

abbrev show_id : Uuid → String
show_id id = "id"

abbrev now : Time
now = 1709244300000000

abbrev bucket : QuotaUsageBucket
bucket = record {
  id = 6;
  tenant_id = 1;
  row_version = 0;
  metric = "AI_COST";
  period_start = 1706652000000000;
  period_end = 1709244000000000;
  reserved_amount = 0;
  used_amount = 120;
}

abbrev before : QuotaDb
before = record { policy = none; buckets = bucket ∷ [] }

abbrev after : QuotaDb
after = record { policy = some policy; buckets = bucket ∷ [] }

policy_written :
    upsert_quota_policy ledger zones show_id 1 now "AI_COST" request 5 before
    ≡ ok (detail ledger zones show_id 1 now after policy, after)
unfolding upsert_quota_policy ledger
policy_written = refl

upsert_quota_policy-ok_example :
    (p : QuotaPolicy) × LimitsFit p
    × Written ledger 1 "AI_COST" request before p after
    × (detail ledger zones show_id 1 now after policy ≡ detail ledger zones show_id 1 now after p)
upsert_quota_policy-ok_example =
    upsert_quota_policy-ok ledger zones show_id 1 now "AI_COST" request 5 before after
      (detail ledger zones show_id 1 now after policy) policy_written

get_after_upsert_example :
    get_quota_policy ledger zones show_id 1 now "AI_COST" after
    ≡ some (detail ledger zones show_id 1 now after policy)
get_after_upsert_example =
    get_after_upsert ledger zones show_id 1 now "AI_COST" request 5 before after
      (detail ledger zones show_id 1 now after policy) policy_written

counted : ¬ In policy.metric gauge_metrics
counted (inl h) = cc
counted (inr h) = h

zones-IsAhead : IsAhead zones "Asia/Shanghai" eight_hours
zones-IsAhead = record { ahead = λ t. refl; back = λ m. refl }

-- A bucket that was stored a microsecond before.
abbrev just_stored : QuotaUsageBucket
just_stored = record bucket { period_start = now - 1 - 30 * 86400000000 }

just_stored-StoredAtOther : StoredAtOther zones "Asia/Shanghai" now just_stored
unfolding period_bounds local_bounds
just_stored-StoredAtOther = record {
  reading = now - 1;
  late = omega arith;
  other = λ h. omega (arith, h);
  start = refl;
}

long_ago : 30 * 86400000000 ≤ now
long_ago = omega arith

rolling_use_is_lost_example :
    let shown =
      usage_dto (just_stored ∷ []) policy (period_bounds zones "ROLLING_30D" "Asia/Shanghai" now) in
    (shown.used ≡ 0) × (shown.level ≡ alert_level 0 (some 80) (some 100))
rolling_use_is_lost_example =
    rolling_use_is_lost zones eight_hours now (just_stored ∷ []) policy zones-IsAhead refl counted
      long_ago (just_stored-StoredAtOther, tt)
