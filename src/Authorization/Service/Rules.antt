-- ===== src/Authorization/Service/Rules.antt =====
-- The workflow state rules and the separation of duties, as statements, and the two methods of
-- src/aipy/modules/authorization/service.py that test them.
use aipy.Prelude.{
  String, refl, subst, inl, inr, Bool, true, false, not, Option, none, some, List, arith, eq_iff,
  ◌≡◌, ◌⊎◌, ◌&&◌, ◌||◌, ◌==◌, if◌then◌else◌, is_none, Bool-cases, Decides, or_Decides, and_Decides,
  id_Decides, holds_iff, any, keep, is_empty, any-keep, is_empty-keep, Any, In, any_iff, contains,
  contains_iff, string_eq, nat_eq,
}
use aipy.Security.{Uuid, TenantContext}
use aipy.Authorization.Permission.{Permission}
use aipy.Authorization.Policy.{
  WorkflowStatePolicy, SeparationOfDutiesPolicy, AuthorizationPolicy, ResourceContext,
}
use aipy.Authorization.Service.{workflow_state_allowed, violates_duties}

-- With no rule for the permission only a resource without a state passes; otherwise some rule for
-- the permission lists the state of the resource.
pub data StateAllowed (rules : List WorkflowStatePolicy) (code : String) (r : ResourceContext)
    : Type 0 where
  no_rule :
      ¬ Any (λ (rule : WorkflowStatePolicy). rule.permission.code ≡ code) rules
      → r.workflow_state ≡ none
      → StateAllowed rules code r
  by_rule :
      (state : String)
      → r.workflow_state ≡ some state
      → Any
          (λ (rule : WorkflowStatePolicy).
            (rule.permission.code ≡ code) × In state rule.allowed_states)
          rules
      → StateAllowed rules code r

abbrev is_for : String → WorkflowStatePolicy → Bool
is_for code rule = rule.permission.code == code

abbrev For : String → WorkflowStatePolicy → Type 0
For code rule = rule.permission.code ≡ code

rules-For_iff :
    (code : String) (rules : List WorkflowStatePolicy)
    → Decides (not (is_empty (keep (is_for code) rules))) (Any (For code) rules)
rules-For_iff code rules =
    rw (is_empty-keep (is_for code) rules)
      (any_iff _ rules (λ rule. eq_iff rule.permission.code code))

rules_allow_iff :
    (code state : String) (rules : List WorkflowStatePolicy)
    → Decides
        (any (λ rule. contains rule.allowed_states state) (keep (is_for code) rules))
        (Any (λ rule. For code rule × In state rule.allowed_states) rules)
rules_allow_iff code state rules =
    rw (any-keep (is_for code) (λ rule. contains rule.allowed_states state) rules) (
      any_iff _ rules (λ rule.
        and_Decides _ _ (eq_iff rule.permission.code code)
          (contains_iff rule.allowed_states state)))

module _ (policy : AuthorizationPolicy) (p : Permission) (r : ResourceContext) where
  open policy use {workflow_state_policies as rules}

  state_sound : workflow_state_allowed policy p r ≡ true → StateAllowed rules p.code r
  unfolding workflow_state_allowed
  state_sound h = elim (Bool-cases (is_empty (keep (is_for p.code) rules))) [
    | inl empty ↦
        no_rule (λ a. let found = (rules-For_iff p.code rules).1 a in ground arith)
          (alone (rw empty at h))
    | inr some_rule ↦ stated r.workflow_state refl (rw some_rule at h)
  ]
    where
      alone : is_none r.workflow_state ≡ true → r.workflow_state ≡ none
      alone e = ground arith

      stated :
          (o : Option String)
          → r.workflow_state ≡ o
          → elim o as (λ _. Bool) [
            | none ↦ false
            | some state ↦
                any (λ rule. contains rule.allowed_states state) (keep (is_for p.code) rules)
          ]
            ≡ true
          → StateAllowed rules p.code r
      stated none e k = cc
      stated (some state) e k = by_rule state e ((rules_allow_iff p.code state rules).0 k)

  state_complete : StateAllowed rules p.code r → workflow_state_allowed policy p r ≡ true
  unfolding workflow_state_allowed
  state_complete (no_rule f e) = elim (Bool-cases (is_empty (keep (is_for p.code) rules))) [
    | inl empty ↦ rw (empty, e)
    | inr some_rule ↦ absurd (f ((rules-For_iff p.code rules).0 (ground arith)))
  ]
  state_complete (by_rule state e a) =
      let found = (rules_allow_iff p.code state rules).1 a in
      elim (Bool-cases (is_empty (keep (is_for p.code) rules))) [
        | inl empty ↦ ground arith
        | inr some_rule ↦ rw (some_rule, e) found
      ]

  -- The workflow-state test holds exactly if there is neither a rule for the code nor a state, or
  -- the state is stated and listed by a rule for the code.
  pub workflow_state_allowed_iff :
      Decides (workflow_state_allowed policy p r) (StateAllowed rules p.code r)
  workflow_state_allowed_iff = (state_sound, state_complete)

-- The actor would judge or publish work of their own.
pub data Conflict (rules : SeparationOfDutiesPolicy) (code : String) (actor : Uuid)
    (r : ResourceContext) : Type 0 where
  submitter :
      In code rules.approval_permissions
      → rules.forbid_submitter_approval ≡ true
      → r.submitted_by ≡ some actor
      → Conflict rules code actor r
  creator :
      In code rules.approval_permissions
      → rules.forbid_creator_approval ≡ true
      → r.created_by ≡ some actor
      → Conflict rules code actor r
  editor :
      In code rules.publishing_permissions
      → rules.forbid_editor_publish ≡ true
      → r.last_edited_by ≡ some actor
      → Conflict rules code actor r
  approver :
      In code rules.publishing_permissions
      → rules.forbid_approver_publish ≡ true
      → In actor r.approved_by_ids
      → Conflict rules code actor r

-- One of the four duty rules: it applies to the code, it is switched on, and it is hit.
duty_iff :
    {Q : Type 0} (codes : List String) (code : String) (on hit : Bool)
    → Decides hit Q
    → Decides (contains codes code && (on && hit)) (In code codes × ((on ≡ true) × Q))
duty_iff codes code on hit h =
    and_Decides _ _ (contains_iff codes code) (and_Decides _ _ (id_Decides on) h)

ladder_eq :
    (a b c d : Bool)
    → (a || (b || (c || d)))
      ≡ (if a then true else if b then true else if c then true else if d then true else false)
ladder_eq a b c d = ground arith

-- Four tests in turn, each of which ends the function.
ladder_Decides :
    {P Q R S : Type 0} (a b c d : Bool)
    → Decides a P
    → Decides b Q
    → Decides c R
    → Decides d S
    → Decides
        (if a then true else if b then true else if c then true else if d then true else false)
        (P ⊎ Q ⊎ R ⊎ S)
ladder_Decides {P} {Q} {R} {S} a b c d h k l m =
    subst (λ t. Decides t (P ⊎ Q ⊎ R ⊎ S)) (ladder_eq a b c d)
      (or_Decides a _ h (or_Decides b _ k (or_Decides c d l m)))

module _ (policy : AuthorizationPolicy) (p : Permission) (s : TenantContext)
    (r : ResourceContext) where
  open policy use {separation_of_duties as rules}

  abbrev Cases : Type 0
  Cases =
      (In p.code rules.approval_permissions
        × ((rules.forbid_submitter_approval ≡ true) × (r.submitted_by ≡ some s.actor_id)))
      ⊎ (In p.code rules.approval_permissions
          × ((rules.forbid_creator_approval ≡ true) × (r.created_by ≡ some s.actor_id)))
      ⊎ (In p.code rules.publishing_permissions
          × ((rules.forbid_editor_publish ≡ true) × (r.last_edited_by ≡ some s.actor_id)))
      ⊎ (In p.code rules.publishing_permissions
          × ((rules.forbid_approver_publish ≡ true) × In s.actor_id r.approved_by_ids))

  violates_duties_cases : Decides (violates_duties policy p s r) Cases
  unfolding violates_duties
  violates_duties_cases =
      ladder_Decides _ _ _ _
        (duty_iff rules.approval_permissions p.code rules.forbid_submitter_approval _
          (holds_iff r.submitted_by s.actor_id))
        (duty_iff rules.approval_permissions p.code rules.forbid_creator_approval _
          (holds_iff r.created_by s.actor_id))
        (duty_iff rules.publishing_permissions p.code rules.forbid_editor_publish _
          (holds_iff r.last_edited_by s.actor_id))
        (duty_iff rules.publishing_permissions p.code rules.forbid_approver_publish _
          (contains_iff r.approved_by_ids s.actor_id))

  Cases-Conflict : Cases → Conflict rules p.code s.actor_id r
  Cases-Conflict (inl (a, (on, hit))) = submitter a on hit
  Cases-Conflict (inr (inl (a, (on, hit)))) = creator a on hit
  Cases-Conflict (inr (inr (inl (a, (on, hit))))) = editor a on hit
  Cases-Conflict (inr (inr (inr (a, (on, hit))))) = approver a on hit

  Conflict-Cases : Conflict rules p.code s.actor_id r → Cases
  Conflict-Cases (submitter a on hit) = inl (a, (on, hit))
  Conflict-Cases (creator a on hit) = inr (inl (a, (on, hit)))
  Conflict-Cases (editor a on hit) = inr (inr (inl (a, (on, hit))))
  Conflict-Cases (approver a on hit) = inr (inr (inr (a, (on, hit))))

  -- The test for separation of duties holds exactly if the actor would judge a resource that they
  -- submitted or created, or publish one that they edited or approved, and the rules forbid it for
  -- the code.
  pub violates_duties_iff :
      Decides (violates_duties policy p s r) (Conflict rules p.code s.actor_id r)
  violates_duties_iff = (
    λ h. Cases-Conflict (violates_duties_cases.0 h),
    λ c. violates_duties_cases.1 (Conflict-Cases c),
  )
