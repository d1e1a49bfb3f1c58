-- ===== src/Api/Quotas/Upserts.antt =====
-- What a successful `upsert_quota_policy` of apps/api/repositories.py has stored.
use aipy.Prelude.{
  String, refl, sym, ap, subst, inl, inr, Bool, true, false, Option, none, some, arith, eq_iff,
  ℕ_discrete, ◌≤◌, ◌≡◌, ◌∙◌, ◌⊎◌, ◌&&◌, ◌==◌, is_none, Option-cases, find_holds, In, In-find,
  In-All, find-none, get, string_eq, nat_eq,
}
use aipy.Api.Errors.{Failure, ok, >>=-eq-ok, >>-eq-ok, ok_inj, or_failure, or_failure-eq-ok}
use aipy.Security.{Uuid}
use aipy.Api.Rows.{Time}
use aipy.Api.Store.{bumped}
use aipy.Api.Store.Memory.{string_discrete}
use aipy.Api.Flush.{flushed-stored}
use aipy.Api.Quotas.{Amount, QuotaPolicy, quota_policy_row, quota_metric_meta, Zones}
use aipy.Api.Quotas.Policies.{
  QuotaStore, UpsertQuotaPolicyRequest, QuotaPolicyDetail, soft_above_hard, value_error_if,
  new_policy, with_request, detail, find_policy, get_quota_policy, write_policy,
  upsert_quota_policy,
}

unfoldable pub quota_policy_discrete : Discrete QuotaPolicy
quota_policy_discrete = hlevel (ℕ_discrete, string_discrete)

value_error_if-ok :
    (test : Bool) (message : String) → value_error_if test message ≡ ok tt → test ≡ false
value_error_if-ok true message h = cc
value_error_if-ok false message h = refl

-- The constraints `limit_present` and `soft_not_above_hard` of the table.
pub record LimitsFit (policy : QuotaPolicy) : Type 0 where
  pub limit_present : ¬ ((policy.soft_limit ≡ none) × (policy.hard_limit ≡ none))
  pub soft_not_above_hard :
      (soft hard : Amount)
      → policy.soft_limit ≡ some soft
      → policy.hard_limit ≡ some hard
      → soft ≤ hard

ordered_limits :
    (soft hard : Option Amount) (s l : Amount)
    → soft_above_hard soft hard ≡ false
    → soft ≡ some s
    → hard ≡ some l
    → s ≤ l
ordered_limits none hard s l h hs hl = cc
ordered_limits (some a) none s l h hs hl = cc
ordered_limits (some a) (some b) s l h hs hl = ground (arith, h, hs, hl)

limits_checked :
    (request : UpsertQuotaPolicyRequest) (policy : QuotaPolicy)
    → policy.soft_limit ≡ request.soft_limit
    → policy.hard_limit ≡ request.hard_limit
    → (is_none request.soft_limit && is_none request.hard_limit) ≡ false
    → soft_above_hard request.soft_limit request.hard_limit ≡ false
    → LimitsFit policy
limits_checked request policy soft hard present ordered = record {
  limit_present = λ h. both_none _ _ present (sym soft ∙ h.0) (sym hard ∙ h.1);
  soft_not_above_hard = λ s l hs hl.
      ordered_limits request.soft_limit request.hard_limit s l ordered (sym soft ∙ hs)
        (sym hard ∙ hl);
}
  where
    both_none : (a b : Option Amount) → (is_none a && is_none b) ≡ false → a ≡ none → b ≡ none → ⊥
    both_none none none h e k = cc
    both_none none (some b) h e k = cc
    both_none (some a) b h e k = cc

-- What was requested, field by field.
pub record AsRequested (request : UpsertQuotaPolicyRequest) (policy : QuotaPolicy) : Type 0 where
  pub period_type : policy.period_type ≡ request.period_type
  pub soft_limit : policy.soft_limit ≡ request.soft_limit
  pub hard_limit : policy.hard_limit ≡ request.hard_limit
  pub overage_allowed : policy.overage_allowed ≡ request.overage_allowed
  pub status : policy.status ≡ request.status

requested_fields :
    (request : UpsertQuotaPolicyRequest) (old policy : QuotaPolicy)
    → (policy ≡ with_request request old)
      ⊎ (policy ≡ bumped quota_policy_row old (with_request request old))
    → AsRequested request policy
requested_fields request old policy (inl e) = rw e (record {
  period_type = refl;
  soft_limit = refl;
  hard_limit = refl;
  overage_allowed = refl;
  status = refl;
})
requested_fields request old policy (inr e) = rw e (record {
  period_type = refl;
  soft_limit = refl;
  hard_limit = refl;
  overage_allowed = refl;
  status = refl;
})

-- The policy is as requested, and stored.
pub record Written {Db : Type 0} (store : QuotaStore Db) (tenant : Uuid) (metric : String)
    (request : UpsertQuotaPolicyRequest) (db : Db) (policy : QuotaPolicy) (db' : Db) : Type 0 where
  pub same_metric : policy.metric ≡ metric
  pub requested : AsRequested request policy
  pub stored : In policy (store.policies.rows db' tenant)
  pub same_buckets : store.buckets db' tenant ≡ store.buckets db tenant

module _ {Db : Type 0} (store : QuotaStore Db) (zones : Zones) (show_id : Uuid → String)
    (tenant : Uuid) (now : Time) where
  new_policy-Written :
      (request : UpsertQuotaPolicyRequest) (metric : String) (id : Uuid) (db db' : Db)
      (policy : QuotaPolicy)
      → write_policy store zones show_id tenant now request metric id none db ≡ ok (policy, db')
      → Written store tenant metric request db policy db'
  new_policy-Written request metric id db db' policy h =
      let new = with_request request (new_policy tenant metric id) in
      let (db₁, added, answer) =
        >>=-eq-ok (or_failure Failure.integrity_error (store.added.insert db new)) _ h in
      let done = or_failure-eq-ok _ _ added in
      let pair = ok_inj answer in
      let policy_is : policy ≡ new = sym (ap (λ x. x.0) pair) in
      let db_is : db' ≡ db₁ = sym (ap (λ x. x.1) pair) in
      let there = (store.added.inserted db db₁ new done tenant new).1 (inl (refl, refl)) in
      rw (policy_is, db_is)
        (record {
          same_metric = refl;
          requested = requested_fields request (new_policy tenant metric id) new (inl refl);
          stored = subst (In new) (store.same_rows db₁ tenant) there;
          same_buckets = store.insert_frame db db₁ new done tenant;
        })

  old_policy-Written :
      (request : UpsertQuotaPolicyRequest) (metric : String) (id : Uuid) (db db' : Db)
      (old policy : QuotaPolicy)
      → In old (store.policies.rows db tenant)
      → old.metric ≡ metric
      → write_policy store zones show_id tenant now request metric id (some old) db
        ≡ ok (policy, db')
      → Written store tenant metric request db policy db'
  old_policy-Written request metric id db db' old policy there named h =
      let ((db₁, r), flushed, answer) =
        >>=-eq-ok
          (or_failure Failure.stale_data (store.policies.flush db old (with_request request old))) _
          h in
      let done = or_failure-eq-ok _ _ flushed in
      let pair = ok_inj answer in
      let policy_is : policy ≡ r = sym (ap (λ x. x.0) pair) in
      let db_is : db' ≡ db₁ = sym (ap (λ x. x.1) pair) in
      let own : old.tenant_id ≡ tenant =
        In-All (λ (p : QuotaPolicy). p.tenant_id ≡ tenant) (store.policies.rows db tenant) old
          (store.policies.rows_scoped db tenant) there in
      let (shape, stored) =
        flushed-stored store.policies quota_policy_discrete db db₁ old (with_request request old) r
          (subst (λ t. In old (store.policies.rows db t)) (sym own) there) refl done in
      let metric_is = of_request r shape in
      rw (policy_is, db_is)
        (record {
          same_metric = metric_is ∙ named;
          requested = requested_fields request old r shape;
          stored = subst (λ t. In r (store.policies.rows db₁ t)) own stored;
          same_buckets = store.flush_frame db db₁ old (with_request request old) r done tenant;
        })
    where
      of_request :
          (r : QuotaPolicy)
          → (r ≡ with_request request old)
            ⊎ (r ≡ bumped quota_policy_row old (with_request request old))
          → r.metric ≡ old.metric
      of_request r (inl e) = rw e refl
      of_request r (inr e) = rw e refl

  pub write_policy-Written :
      (request : UpsertQuotaPolicyRequest) (metric : String) (id : Uuid) (db db' : Db)
      (policy : QuotaPolicy)
      → write_policy store zones show_id tenant now request metric id
          (find_policy store zones show_id tenant now metric db)
          db
        ≡ ok (policy, db')
      → Written store tenant metric request db policy db'
  write_policy-Written request metric id db db' policy h =
      elim (Option-cases (find_policy store zones show_id tenant now metric db)) [
        | inl e ↦ new_policy-Written request metric id db db' policy (
            subst
              (λ o.
                write_policy store zones show_id tenant now request metric id o db
                ≡ ok (policy, db'))
              e h)
        | inr (old, e) ↦
            old_policy-Written request metric id db db' old policy
              (In-find _ (store.policies.rows db tenant) old e)
              ((eq_iff old.metric metric).0 (
                find_holds (λ (p : QuotaPolicy). p.metric == metric) (store.policies.rows db tenant)
                  old e))
              (subst
                (λ o.
                  write_policy store zones show_id tenant now request metric id o db
                  ≡ ok (policy, db'))
                e h)
      ]

  -- An upsert of a quota that succeeds has stored one policy for that metric with the period,
  -- limits, overage and status that were requested, field by field, with a limit present and the
  -- soft limit not above the hard one, and answers with it and its use.
  pub upsert_quota_policy-ok :
      (metric : String) (request : UpsertQuotaPolicyRequest) (id : Uuid) (db db' : Db)
      (answer : QuotaPolicyDetail)
      → upsert_quota_policy store zones show_id tenant now metric request id db ≡ ok (answer, db')
      → (policy : QuotaPolicy) × LimitsFit policy
        × Written store tenant metric request db policy db'
        × (answer ≡ detail store zones show_id tenant now db' policy)
  unfolding upsert_quota_policy
  upsert_quota_policy-ok metric request id db db' answer h =
      let (present, h₁) =
        >>-eq-ok (value_error_if (is_none request.soft_limit && is_none request.hard_limit) _) _
          h in
      let (ordered, h₂) =
        >>-eq-ok (value_error_if (soft_above_hard request.soft_limit request.hard_limit) _) _ h₁ in
      let (_m, h₃) = >>-eq-ok (value_error_if (is_none (get quota_metric_meta metric)) _) _ h₂ in
      let ((policy, db₁), wrote, last) =
        >>=-eq-ok
          (write_policy store zones show_id tenant now request metric id
            (find_policy store zones show_id tenant now metric db) db)
          _ h₃ in
      let pair = ok_inj last in
      let db_is : db₁ ≡ db' = ap (λ x. x.1) pair in
      let written =
        subst (λ d. Written store tenant metric request db policy d) db_is
          (write_policy-Written request metric id db db₁ policy wrote) in
      (
        policy,
        limits_checked request policy written.requested.soft_limit written.requested.hard_limit
            (value_error_if-ok _ _ present) (value_error_if-ok _ _ ordered),
        written,
        sym (ap (λ x. x.0) pair) ∙ ap (λ d. detail store zones show_id tenant now d policy) db_is,
      )

  -- What an upsert of a quota answers is what reading the quota of that metric answers after it, at
  -- the same time.
  pub get_after_upsert :
      (metric : String) (request : UpsertQuotaPolicyRequest) (id : Uuid) (db db' : Db)
      (answer : QuotaPolicyDetail)
      → upsert_quota_policy store zones show_id tenant now metric request id db ≡ ok (answer, db')
      → get_quota_policy store zones show_id tenant now metric db' ≡ some answer
  unfolding get_quota_policy
  get_after_upsert metric request id db db' answer h =
      let (policy, _f, written, answered) =
        upsert_quota_policy-ok metric request id db db' answer h in
      elim (Option-cases (find_policy store zones show_id tenant now metric db')) [
        | inl e ↦ absurd (
            find-none _ (store.policies.rows db' tenant) e policy written.stored
              ((eq_iff policy.metric metric).1 written.same_metric))
        | inr (found, e) ↦
            let named = (eq_iff found.metric metric).0 (
              find_holds (λ (p : QuotaPolicy). p.metric == metric) (store.policies.rows db' tenant)
                found e) in
            let same =
              store.one_per_metric db' tenant found policy
                (In-find _ (store.policies.rows db' tenant) found e) written.stored
                (named ∙ sym written.same_metric) in
            rw (e, get_quota_policy, answered, same) refl
      ]
