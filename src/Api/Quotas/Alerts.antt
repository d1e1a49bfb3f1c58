-- ===== src/Api/Quotas/Alerts.antt =====
-- The alert level of a quota (`_alert_level` of apps/api/repositories.py) against its meaning.
use aipy.Prelude.{
  ℕ, String, refl, sym, subst, inl, inr, Option, none, some, arith, ◌≤◌, ◌≡◌, ◌↔◌, ◌==◌,
  if◌then◌else◌, leb, leb→le, le→leb, Bool-cases, Decides, Decides-false, string_eq, nat_eq,
}
use aipy.Prelude.Options.{some_inj}
use aipy.Api.Quotas.{Amount, alert_level, reached}

-- A limit is set, and the use has come up to it.
pub data Reached (used : Amount) (limit : Option Amount) : Type 0 where
  up_to : (l : Amount) → limit ≡ some l → l ≤ used → Reached used limit

-- What the levels mean.
pub data Alert (used : Amount) (soft hard : Option Amount) (level : String) : Type 0 where
  exceeded : Reached used hard → level ≡ "EXCEEDED" → Alert used soft hard level
  warning :
      (¬ Reached used hard) → Reached used soft → level ≡ "WARNING" → Alert used soft hard level
  no_limit : soft ≡ none → hard ≡ none → level ≡ "NO_LIMIT" → Alert used soft hard level
  normal :
      (¬ Reached used hard)
      → (¬ Reached used soft)
      → ((soft ≡ none) × (hard ≡ none) → ⊥)
      → level ≡ "NORMAL"
      → Alert used soft hard level

reached_iff :
    (used : Amount) (limit : Option Amount) → Decides (reached limit used) (Reached used limit)
reached_iff used none = (λ h. cc, λ h. elim h [ up_to l e k ↦ cc ])
reached_iff used (some l) = (
  λ h. up_to l refl (leb→le l used h),
  λ h. elim h [ up_to m e k ↦ le→leb l used (subst (λ x. x ≤ used) (sym (some_inj e)) k) ],
)

alert_level-Alert :
    (used : Amount) (soft hard : Option Amount) → Alert used soft hard (alert_level used soft hard)
unfolding alert_level
alert_level-Alert used none none = no_limit refl refl (ground arith)
alert_level-Alert used (some s) none = elim (Bool-cases (leb s used)) [
  | inl e ↦
      warning (λ h. cc ((reached_iff used none).1 h)) ((reached_iff used (some s)).0 e)
        (ground arith)
  | inr e ↦
      normal (λ h. cc ((reached_iff used none).1 h)) (λ h. cc ((reached_iff used (some s)).1 h, e))
        (λ h. cc (h.0)) (ground arith)
]
alert_level-Alert used soft (some l) = elim (Bool-cases (leb l used)) [
  | inl e ↦ exceeded ((reached_iff used (some l)).0 e) (ground arith)
  | inr e ↦ elim (Bool-cases (reached soft used)) [
    | inl k ↦
        warning (λ h. cc ((reached_iff used (some l)).1 h, e)) ((reached_iff used soft).0 k)
          (ground arith)
    | inr k ↦
        normal (λ h. cc ((reached_iff used (some l)).1 h, e))
          (λ h. cc ((reached_iff used soft).1 h, k)) (λ h. cc (h.1)) (ground arith)
  ]
]

Alert-alert_level :
    (used : Amount) (soft hard : Option Amount) (level : String)
    → Alert used soft hard level
    → alert_level used soft hard ≡ level
unfolding alert_level
Alert-alert_level used soft none level (exceeded r e) = cc ((reached_iff used none).1 r)
Alert-alert_level used soft (some l) level (exceeded r e) =
    let hit = (reached_iff used (some l)).1 r in rw e (ground arith)
Alert-alert_level used none hard level (warning n r e) = cc ((reached_iff used none).1 r)
Alert-alert_level used (some s) hard level (warning n r e) =
    let miss = Decides-false _ (reached_iff used hard) n in
    let hit = (reached_iff used (some s)).1 r in rw e (ground arith)
Alert-alert_level used soft hard level (no_limit a b e) = rw (a, b, e) (ground arith)
Alert-alert_level used none none level (normal n m k e) = absurd (k (refl, refl))
Alert-alert_level used (some s) hard level (normal n m k e) =
    let miss = Decides-false _ (reached_iff used hard) n in
    let miss' = Decides-false _ (reached_iff used (some s)) m in rw e (ground arith)
Alert-alert_level used none (some l) level (normal n m k e) =
    let miss = Decides-false _ (reached_iff used (some l)) n in rw e (ground arith)

-- The alert level is EXCEEDED exactly if the hard limit is reached, WARNING exactly if only the
-- soft one is, NO_LIMIT exactly if there is neither, and NORMAL otherwise.
pub alert_level_iff :
    (used : Amount) (soft hard : Option Amount) (level : String)
    → (alert_level used soft hard ≡ level) ↔ Alert used soft hard level
alert_level_iff used soft hard level = (
  λ h. subst (Alert used soft hard) h (alert_level-Alert used soft hard),
  Alert-alert_level used soft hard level,
)

-- The levels in the order of their weight.
abbrev pub weight : String → ℕ
weight level = if level == "EXCEEDED" then 2 else if level == "WARNING" then 1 else 0

later :
    (used more : Amount) (limit : Option Amount)
    → used ≤ more
    → Reached used limit
    → Reached more limit
later used more limit h (up_to l e k) = up_to l e (omega (arith, h, k))

-- More use never lowers the level.
pub alert_level_rises :
    (used more : Amount) (soft hard : Option Amount)
    → used ≤ more
    → weight (alert_level used soft hard) ≤ weight (alert_level more soft hard)
alert_level_rises used more soft hard h = elim (alert_level-Alert used soft hard) [
  | exceeded r e ↦
      let still =
        Alert-alert_level more soft hard "EXCEEDED" (exceeded (later used more hard h r) refl) in
      rw (e, still) (omega arith)
  | warning n r e ↦ elim (Bool-cases (reached hard more)) [
    | inl k ↦
        let worse =
          Alert-alert_level more soft hard "EXCEEDED"
            (exceeded ((reached_iff more hard).0 k) refl) in
        rw (e, worse) (omega arith)
    | inr k ↦
        let still =
          Alert-alert_level more soft hard "WARNING"
            (warning (λ x. cc ((reached_iff more hard).1 x, k)) (later used more soft h r) refl) in
        rw (e, still) (omega arith)
  ]
  | no_limit a b e ↦ rw e (omega arith)
  | normal n m k e ↦ rw e (omega arith)
]
