-- ===== src/Api/Quotas/Policies.antt =====
-- The repositories of quota policies in apps/api/repositories.py: reading, counting and writing.
use aipy.Prelude.{
  ℕ, String, Bool, false, Option, none, some, List, [], map, ◌≡◌, ◌↔◌, ◌&&◌, ◌∷◌, ◌==◌,
  if◌then◌else◌, ltb, is_none, length, keep, find, In, fstring, get, string_eq, nat_eq,
}
use aipy.Security.{Uuid}
use aipy.Api.Errors.{Result, Failure, ok, err, ◌>>=◌, ◌>>◌, or_failure}
use aipy.Api.Rows.{Time, next_version}
use aipy.Api.Store.{Table}
use aipy.Api.Store.Inserts.{Inserts}
use aipy.Api.Quotas.{
  Amount, QuotaPolicy, quota_policy_row, QuotaUsageBucket, quota_metric_meta, Zones, period_bounds,
  QuotaPolicySummary, to_quota_summary, QuotaUsage, usage_dto,
}

-- The tables of quotas, with the constraint `uq_quota_policy_tenant_metric`.
pub record QuotaStore (Db : Type 0) : Type 0 where
  pub policies : Table Db quota_policy_row
  pub added : Inserts Db quota_policy_row
  pub buckets : Db → Uuid → List QuotaUsageBucket
  -- The rows of `policies`, ordered by metric.
  pub by_metric : Db → Uuid → List QuotaPolicy
  pub by_metric_iff :
      (db : Db) (t : Uuid) (p : QuotaPolicy) → In p (by_metric db t) ↔ In p (policies.rows db t)
  pub same_rows : (db : Db) (t : Uuid) → added.rows db t ≡ policies.rows db t
  pub one_per_metric :
      (db : Db) (t : Uuid) (x y : QuotaPolicy)
      → In x (policies.rows db t)
      → In y (policies.rows db t)
      → x.metric ≡ y.metric
      → x ≡ y
  pub insert_frame :
      (db db' : Db) (p : QuotaPolicy)
      → added.insert db p ≡ some db'
      → (t : Uuid) → buckets db' t ≡ buckets db t
  pub flush_frame :
      (db db' : Db) (old new r : QuotaPolicy)
      → policies.flush db old new ≡ some (db', r)
      → (t : Uuid) → buckets db' t ≡ buckets db t

pub record UpsertQuotaPolicyRequest : Type 0 where
  pub period_type : String
  pub soft_limit : Option Amount
  pub hard_limit : Option Amount
  pub overage_allowed : Bool
  pub status : String

pub record QuotaPolicyDetail : Type 0 where
  pub summary : QuotaPolicySummary
  pub usage : QuotaUsage

pub record QuotaOverview : Type 0 where
  pub policy_count : ℕ
  pub active_count : ℕ
  pub warning_count : ℕ
  pub exceeded_count : ℕ
  pub generated_at : Time

-- `data.soft_limit > data.hard_limit`, where both are given.
abbrev pub soft_above_hard : Option Amount → Option Amount → Bool
soft_above_hard (some soft) (some hard) = ltb hard soft
soft_above_hard soft hard = false

-- `raise ValueError(…)`
abbrev pub value_error_if : Bool → String → Result (Unit {0})
value_error_if test message = if test then err (Failure.value_error message) else ok tt

-- `QuotaPolicy(tenant_id=…, metric=…)`
abbrev pub new_policy : Uuid → String → Uuid → QuotaPolicy
new_policy tenant metric id = record {
  id = id;
  tenant_id = tenant;
  row_version = next_version none;
  metric = metric;
  period_type = "MONTHLY";
  soft_limit = none;
  hard_limit = none;
  overage_allowed = false;
  timezone = "Asia/Shanghai";
  status = "ACTIVE";
}

abbrev pub with_request : UpsertQuotaPolicyRequest → QuotaPolicy → QuotaPolicy
with_request request policy = record policy {
  period_type = request.period_type;
  soft_limit = request.soft_limit;
  hard_limit = request.hard_limit;
  overage_allowed = request.overage_allowed;
  status = request.status;
}

module _ {Db : Type 0} (store : QuotaStore Db) (zones : Zones) (show_id : Uuid → String)
    (tenant : Uuid) (now : Time) where
  -- The policy with its usage in the current period.
  unfoldable pub detail : Db → QuotaPolicy → QuotaPolicyDetail
  unfolding period_bounds usage_dto
  detail db policy = record {
    summary = to_quota_summary show_id policy;
    usage =
        usage_dto (store.buckets db tenant) policy
          (period_bounds zones policy.period_type policy.timezone now);
  }

  abbrev pub find_policy : String → Db → Option QuotaPolicy
  find_policy metric db =
      find (λ (p : QuotaPolicy). p.metric == metric) (store.policies.rows db tenant)

  unfoldable pub list_quota_policies : Db → List QuotaPolicyDetail
  unfolding detail
  list_quota_policies db = map (detail db) (store.by_metric db tenant)

  unfoldable pub quota_overview : Db → QuotaOverview
  unfolding list_quota_policies
  quota_overview db =
      let details = list_quota_policies db in
      record {
        policy_count = length details;
        active_count = length (keep (λ d. d.summary.status == "ACTIVE") details);
        warning_count = length (keep (λ d. d.usage.level == "WARNING") details);
        exceeded_count = length (keep (λ d. d.usage.level == "EXCEEDED") details);
        generated_at = now;
      }

  unfoldable pub get_quota_policy : String → Db → Option QuotaPolicyDetail
  unfolding detail
  get_quota_policy metric db = elim (find_policy metric db) [
    | none ↦ none
    | some policy ↦ some (detail db policy)
  ]

  -- `session.flush()` of the policy, loaded or new.
  abbrev pub write_policy :
      UpsertQuotaPolicyRequest → String → Uuid → Option QuotaPolicy → Db → Result (QuotaPolicy × Db)
  write_policy request metric id none db = do
    let policy = with_request request (new_policy tenant metric id)
    db' ← or_failure Failure.integrity_error (store.added.insert db policy)
    ok (policy, db')
  write_policy request metric id (some policy) db = do
    (db', written) ←
        or_failure Failure.stale_data (store.policies.flush db policy (with_request request policy))
    ok (written, db')

  -- `upsert_quota_policy`; the argument `id` is the identifier of a new row.
  unfoldable pub upsert_quota_policy :
      String → UpsertQuotaPolicyRequest → Uuid → Db → Result (QuotaPolicyDetail × Db)
  unfolding detail
  upsert_quota_policy metric request id db = do
    value_error_if (is_none request.soft_limit && is_none request.hard_limit)
        "soft_limit and hard_limit cannot both be empty"
    value_error_if (soft_above_hard request.soft_limit request.hard_limit)
        "soft_limit cannot exceed hard_limit"
    value_error_if (is_none (get quota_metric_meta metric))
        (fstring ("unknown metric: " ∷ metric ∷ []))
    (policy, db') ← write_policy request metric id (find_policy metric db) db
    ok (detail db' policy, db')
