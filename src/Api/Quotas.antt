-- ===== src/Api/Quotas.antt =====
-- Quota policies in apps/api/repositories.py, with the rows of src/aipy/modules/governance/quota_models.py.
-- An amount is a number of ten-thousandths, as `Numeric(14, 4)` has it; amounts below zero, which the
-- database refuses for limits, are left out. A ratio is its two terms.
pub mod Policies
pub mod Alerts
pub mod Periods
pub mod Upserts
mod Tests
use aipy.Prelude.{
  ℕ, String, refl, Bool, false, Option, none, some, List, [], ◌+◌, ◌-◌, ◌*◌, ◌/◌, ◌&&◌, ◌∷◌, ◌==◌,
  if◌then◌else◌, ltb, leb, is_none, find, contains, get, get_or, string_eq, nat_eq,
}
use aipy.Prelude.Calendar.{day_length, first_of_month}
use aipy.Security.{Uuid}
use aipy.Api.Errors.{Result, Failure, ok, err, ◌>>=◌, ◌>>◌}
use aipy.Api.Rows.{Time, Row, next_version}
use aipy.Api.Store.{Table}
use aipy.Api.Store.Inserts.{Inserts}
use aipy.Api.Preconditions.{etag}

abbrev pub Amount : Type 0
Amount = ℕ

pub record QuotaPolicy : Type 0 where
  pub id : Uuid
  pub tenant_id : Uuid
  pub row_version : ℕ
  pub metric : String
  pub period_type : String
  pub soft_limit : Option Amount
  pub hard_limit : Option Amount
  pub overage_allowed : Bool
  pub timezone : String
  pub status : String

instance abbrev pub quota_policy_row : Row QuotaPolicy
quota_policy_row = record {
  id = λ r. r.id;
  tenant_id = λ r. r.tenant_id;
  row_version = λ r. r.row_version;
  with_version = λ v r. record r { row_version = v };
  id_kept = λ v r. refl;
  tenant_kept = λ v r. refl;
  version_set = λ v r. refl;
}

pub record QuotaUsageBucket : Type 0 where
  pub id : Uuid
  pub tenant_id : Uuid
  pub row_version : ℕ
  pub metric : String
  pub period_start : Time
  pub period_end : Time
  pub reserved_amount : Amount
  pub used_amount : Amount

-- `QUOTA_METRIC_META`
abbrev pub quota_metric_meta : List (String × (String × String))
quota_metric_meta =
    ("ARTICLES_GENERATED", ("生成文章数", "篇"))
    ∷ ("ARTICLES_PUBLISHED", ("发布文章数", "篇"))
    ∷ ("SOURCES_COLLECTED", ("采集素材数", "条"))
    ∷ ("INPUT_TOKENS", ("输入 Token", "token"))
    ∷ ("OUTPUT_TOKENS", ("输出 Token", "token"))
    ∷ ("AI_COST", ("AI 成本", "元"))
    ∷ ("MAX_CONCURRENT_RUNS", ("并发工作流上限", "个"))
    ∷ []

-- `_GAUGE_METRICS`
abbrev pub gauge_metrics : List String
gauge_metrics = "MAX_CONCURRENT_RUNS" ∷ []

-- A `datetime` with a time zone: what the wall clock shows, and which of two equal readings it is.
pub record Moment : Type 0 where
  pub wall : Time
  pub fold : ℕ

-- `zoneinfo`: the zone of a name, which may be unknown, and the conversions.
pub record Zones : Type 1 where
  pub Zone : Type 0
  pub zone_info : String → Option Zone
  pub utc : Zone
  pub localized : Zone → Time → Moment
  pub to_utc : Zone → Moment → Time

-- `datetime.combine(day, time.min)`, for a number of days.
abbrev pub midnight : ℕ → Moment
midnight day = record { wall = day * day_length; fold = 0 }

-- The three branches of `_period_bounds`, on the wall clock.
unfoldable pub local_bounds : String → Moment → Moment × Moment
unfolding first_of_month
local_bounds period_type local_now =
    let today = local_now.wall / day_length in
    if period_type == "DAILY"
    then (midnight today, midnight (today + 1))
    else if period_type == "ROLLING_30D"
    then (record { wall = local_now.wall - 30 * day_length; fold = 0 }, local_now)
    else (midnight (first_of_month today), midnight (first_of_month (first_of_month today + 32)))

abbrev pub zone_or_utc : (zones : Zones) → Option zones.Zone → zones.Zone
zone_or_utc zones none = zones.utc
zone_or_utc zones (some zone) = zone

-- `_period_bounds`
unfoldable pub period_bounds : Zones → String → String → Time → Time × Time
unfolding local_bounds
period_bounds zones period_type timezone_name now =
    let zone = zone_or_utc zones (zones.zone_info timezone_name) in
    let bounds = local_bounds period_type (zones.localized zone now) in
    (zones.to_utc zone bounds.0, zones.to_utc zone bounds.1)

-- `limit is not None and used >= limit`
abbrev pub reached : Option Amount → Amount → Bool
reached none used = false
reached (some limit) used = leb limit used

-- `_alert_level`
unfoldable pub alert_level : Amount → Option Amount → Option Amount → String
alert_level used soft hard =
    if leb used 0 && (is_none soft && is_none hard)
    then "NO_LIMIT"
    else if reached hard used
    then "EXCEEDED"
    else if is_none soft && is_none hard
    then "NO_LIMIT"
    else if reached soft used
    then "WARNING"
    else if is_none soft && reached hard used
    then "WARNING"
    else "NORMAL"

pub record QuotaPolicySummary : Type 0 where
  pub id : Uuid
  pub metric : String
  pub metric_label : String
  pub unit : String
  pub period_type : String
  pub soft_limit : Option Amount
  pub hard_limit : Option Amount
  pub overage_allowed : Bool
  pub status : String
  pub allowed_actions : List String
  pub etag : String
  pub version : ℕ

-- `_to_quota_summary`; `show_id` is `str` of a UUID.
abbrev pub to_quota_summary : (Uuid → String) → QuotaPolicy → QuotaPolicySummary
to_quota_summary show_id policy =
    let meta = get_or (get quota_metric_meta policy.metric) (policy.metric, "") in
    record {
      id = policy.id;
      metric = policy.metric;
      metric_label = meta.0;
      unit = meta.1;
      period_type = policy.period_type;
      soft_limit = policy.soft_limit;
      hard_limit = policy.hard_limit;
      overage_allowed = policy.overage_allowed;
      status = policy.status;
      allowed_actions = "view" ∷ "configure" ∷ [];
      etag = etag (show_id policy.id) policy.row_version;
      version = policy.row_version;
    }

pub record QuotaUsage : Type 0 where
  pub used : Amount
  pub reserved : Amount
  pub usage_ratio : Option (Amount × Amount)
  pub level : String
  pub period : Option (Time × Time)

abbrev pub used_of : Option QuotaUsageBucket → Amount
used_of none = 0
used_of (some bucket) = bucket.used_amount

abbrev pub reserved_of : Option QuotaUsageBucket → Amount
reserved_of none = 0
reserved_of (some bucket) = bucket.reserved_amount

-- `float(used / hard) if hard and hard > 0 else None`
abbrev pub ratio_of : Amount → Option Amount → Option (Amount × Amount)
ratio_of used none = none
ratio_of used (some hard) = if ltb 0 hard then some (used, hard) else none

-- `_usage_dto`, of the buckets that the session sees.
unfoldable pub usage_dto : List QuotaUsageBucket → QuotaPolicy → Time × Time → QuotaUsage
unfolding alert_level
usage_dto buckets policy period =
    if contains gauge_metrics policy.metric
    then record { used = 0; reserved = 0; usage_ratio = none; level = "NORMAL"; period = none }
    else (let bucket =
          find (λ (b : QuotaUsageBucket). b.metric == policy.metric && b.period_start == period.0)
            buckets in
        record {
          used = used_of bucket;
          reserved = reserved_of bucket;
          usage_ratio = ratio_of (used_of bucket) policy.hard_limit;
          level = alert_level (used_of bucket) policy.soft_limit policy.hard_limit;
          period = some period;
        })
