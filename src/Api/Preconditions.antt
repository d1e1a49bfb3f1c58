-- ===== src/Api/Preconditions.antt =====
-- The checks of apps/api/repositories.py that every write action goes through: the action is
-- supported, the If-Match header carries the current version, and the policy allows the action.
-- Header values are Latin-1, so the digits of the version are the ASCII ones.
pub mod TagText
pub mod Etags
mod Tests
use aipy.Prelude.{
  ℕ, String, ap, Bool, true, not, Option, none, some, List, [], map, arith, ◌*◌, ◌≡◌, ◌∷◌, ◌==◌,
  nat_beq_iff, keep, contains, fstring, string_eq, nat_eq, strip, if◌then◌else◌, strip_by, ◌&&◌,
  is_none,
}
use aipy.Prelude.Decimal.{decimal, digits_value, starts_digit}
use Prim.Native.Char.{Char, code}
use aipy.Security.{Uuid, TenantContext}
use aipy.Authorization.Policy.{
  AuthorizationPolicy, ResourceContext, DenialReason, AuthorizationDecision, resource_context,
}
use aipy.Authorization.Service.{Action, text, authorize, allowed_actions}
use aipy.Content.StateMachine.{content_transitions, task_transitions}
use aipy.Api.Errors.{Result, ok, raise, raise_if, raise_if-eq-ok}

-- The three kinds of rows on a board, `CONTENT_RESOURCE`, `REVIEW_RESOURCE` and `SOURCE_RESOURCE`.
pub data Resource : Type 0 where
  content review source : Resource

abbrev pub resource_type : Resource → String
resource_type Resource.content = "content"
resource_type Resource.review = "review"
resource_type Resource.source = "source"

-- `CANDIDATE_ACTIONS`
abbrev pub candidate_actions : Resource → List String
candidate_actions Resource.content =
    "content:view" ∷ "content:create" ∷ "content:edit" ∷ "content:assign" ∷ "content:pause"
    ∷ "content:resume" ∷ "content:rerun" ∷ "content:cancel" ∷ "content:export" ∷ "content:collect"
    ∷ []
candidate_actions Resource.review =
    "review:view" ∷ "review:claim" ∷ "review:approve" ∷ "review:reject" ∷ "review:reassign"
    ∷ "review:submit" ∷ "review:assign" ∷ []
candidate_actions Resource.source =
    "source:view" ∷ "source:create" ∷ "source:edit" ∷ "source:collect" ∷ []

-- What the board functions read of a row; only a human task has an assignee.
pub record BoardRow : Type 0 where
  pub id : Uuid
  pub created_by : Option Uuid
  pub assignee_id : Option Uuid

-- `_etag`
unfoldable pub etag : String → ℕ → String
unfolding decimal
etag code version = fstring ("\"" ∷ code ∷ "-v" ∷ decimal version ∷ "\"" ∷ [])

-- `SUPPORTED_ACTIONS`, which has no entry for materials and is not asked for one.
abbrev pub supported_actions : Resource → List String
supported_actions Resource.content = map (λ e. e.0) content_transitions
supported_actions Resource.review = map (λ e. e.0) task_transitions
supported_actions Resource.source = []

unfoldable pub ensure_supported : String → Resource → Result (Unit {0})
ensure_supported action kind =
    raise_if (not (contains (supported_actions kind) action)) 400 "unsupported_action"
      (fstring ("'" ∷ action ∷ "' is not a " ∷ resource_type kind ∷ " state action" ∷ []))

abbrev pub is_quote : Char → Bool
is_quote c = code c == b'"'

-- `_ETAG_VERSION.search`: the first place where `-v` and digits go on to the end.
abbrev pub version_after_v : String → Option ℕ
version_after_v String.[] = none
version_after_v (String.◌∷◌ c s) =
    if code c == b'v' && starts_digit s then digits_value 0 s else none

pub search_version : String → Option ℕ
search_version String.[] = none
search_version (String.◌∷◌ c s) =
    let rest = search_version s in
    if code c == b'-' && not (is_none (version_after_v s)) then version_after_v s else rest

-- `candidate.startswith("W/")`, and what follows it.
abbrev pub after_weak : String → Option String
after_weak (String.◌∷◌ c (String.◌∷◌ d s)) =
    if code c == b'W' && code d == b'/' then some s else none
after_weak s = none

-- The candidate, or what follows the mark of a weak tag.
abbrev strong_tag : Option String → String → String
strong_tag none candidate = candidate
strong_tag (some s) candidate = strip s

-- The tag without its surroundings, `none` for `*`.
abbrev pub opaque_tag : String → Option String
opaque_tag header =
    let candidate = strip header in
    let strong = strong_tag (after_weak candidate) candidate in
    if strong == "*" then none else some (strip_by is_quote strong)

unfoldable pub parse_expected_version : Option String → Result (Option ℕ)
unfolding search_version digits_value starts_digit
parse_expected_version none = ok none
parse_expected_version (some header) = elim (opaque_tag header) [
  | none ↦ ok none
  | some tag ↦ elim (search_version tag) [
    | none ↦ raise 400 "invalid_precondition" "If-Match does not carry a version"
    | some version ↦ ok (some version)
  ]
]

-- `_require_version`
unfoldable pub require_version : ℕ → Option ℕ → Result (Unit {0})
unfolding decimal
require_version current none =
    raise 428 "precondition_required" "If-Match is required for write actions"
require_version current (some expected) =
    raise_if (not (expected == current)) 412 "version_conflict" (
      fstring (
        "resource changed since version "
        ∷ decimal expected
        ∷ "; current version is "
        ∷ decimal current
        ∷ []))

-- `reason.lower()`, for the reasons of the service.
abbrev pub reason_code : Option DenialReason → String
reason_code none = "forbidden"
reason_code (some DenialReason.invalid_permission) = "invalid_permission"
reason_code (some DenialReason.tenant_mismatch) = "tenant_mismatch"
reason_code (some DenialReason.resource_type_mismatch) = "resource_type_mismatch"
reason_code (some DenialReason.policy_not_found) = "policy_not_found"
reason_code (some DenialReason.tenant_inactive) = "tenant_inactive"
reason_code (some DenialReason.actor_inactive) = "actor_inactive"
reason_code (some DenialReason.permission_missing) = "permission_missing"
reason_code (some DenialReason.data_scope_mismatch) = "data_scope_mismatch"
reason_code (some DenialReason.workflow_state_denied) = "workflow_state_denied"
reason_code (some DenialReason.separation_of_duties) = "separation_of_duties"

-- The part of a permission code behind its first colon, as `code.split(":", maxsplit=1)[1]`.
abbrev pub short_action : String → String
short_action String.[] = ""
short_action (String.◌∷◌ c s) = let rest = short_action s in if code c == b':' then s else rest

abbrev pub action_code : Resource → String → Action
action_code kind action = text (fstring (resource_type kind ∷ ":" ∷ action ∷ []))

abbrev pub row_context : TenantContext → Resource → BoardRow → ResourceContext
row_context subject kind row = record (resource_context subject.tenant_id (resource_type kind)) {
  resource_id = some row.id;
  created_by = row.created_by;
  assigned_to = row.assignee_id;
}

-- Both raise what `decision` says.
abbrev pub require_allowed : AuthorizationDecision → String → Result (Unit {0})
require_allowed decision action =
    raise_if (not decision.allowed) 403 (reason_code decision.denial_reason)
      (fstring ("action '" ∷ action ∷ "' is not allowed" ∷ []))

module _ (get_policy : TenantContext → Option AuthorizationPolicy) (subject : TenantContext) where
  -- `_require_permission`
  unfoldable pub require_permission : Resource → String → BoardRow → Result (Unit {0})
  require_permission kind action row =
      require_allowed
        (authorize get_policy subject (action_code kind action) (row_context subject kind row))
        action

  -- `_require_create_permission`
  unfoldable pub require_create_permission : Resource → String → Result (Unit {0})
  require_create_permission kind action =
      require_allowed
        (authorize get_policy subject (action_code kind action)
          (resource_context subject.tenant_id (resource_type kind)))
        action

  -- `_allowed_actions`, whose context names no assignee.
  unfoldable pub row_actions : Resource → BoardRow → List String
  row_actions kind row =
      let codes =
        allowed_actions get_policy subject (map text (candidate_actions kind))
          (row_context subject kind (record row { assignee_id = none })) in
      map short_action (keep (contains codes) (candidate_actions kind))

pub require_version-ok :
    (current : ℕ) (expected : Option ℕ)
    → require_version current expected ≡ ok tt
    → expected ≡ some current
unfolding require_version
require_version-ok current none h = cc
require_version-ok current (some e) h =
    let same = raise_if-eq-ok (not (e == current)) _ _ _ h in
    ap some ((nat_beq_iff e current).0 (ground arith))

pub require_permission-ok :
    (get_policy : TenantContext → Option AuthorizationPolicy) (subject : TenantContext)
    (kind : Resource) (action : String) (row : BoardRow)
    → require_permission get_policy subject kind action row ≡ ok tt
    → (authorize get_policy subject
        (action_code kind action)
        (row_context subject kind row)).allowed
      ≡ true
unfolding require_permission
require_permission-ok get_policy subject kind action row h =
    let decision =
      authorize get_policy subject (action_code kind action) (row_context subject kind row) in
    let allowed = raise_if-eq-ok (not decision.allowed) _ _ _ h in ground arith
