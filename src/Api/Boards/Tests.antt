-- ===== src/Api/Boards/Tests.antt =====
-- What the board offers on a task, to an operator of the tenant and to somebody who may act on their
-- own assignments only.
use aipy.Prelude.{refl, sym, subst, inl, Option, none, some, [], ◌≡◌, ◌∷◌, In}
use aipy.Security.{TenantContext}
use aipy.Authorization.Policy.{DataScope, AuthorizationPolicy}
use aipy.Api.Errors.{ok}
use aipy.Api.Rows.{HumanTask}
use aipy.Api.Preconditions.{Resource, require_permission, row_actions}
use aipy.Api.Boards.{task_board}
use aipy.Api.Boards.Offers.{offered_is_permitted}
use aipy.Api.Fixtures.{operator, operator_policy, operator_policies, open_task}

abbrev own_assignments : TenantContext → Option AuthorizationPolicy
own_assignments s = some (record operator_policy {
  permission_grants =
      (record {
        permission = record { code = "review:submit" };
        data_scopes =
            (record {
              scope = DataScope.assigned;
              workspace_ids = [];
              team_ids = [];
              custom = none;
            })
            ∷ [];
      })
      ∷ [];
})

abbrev assigned_task : HumanTask
assigned_task = record open_task { status = "CLAIMED"; assignee_id = some 7 }

offers_test :
    row_actions operator_policies operator Resource.review (task_board open_task)
    ≡ "claim" ∷ "approve" ∷ "submit" ∷ []
unfolding row_actions aipy.Authorization.Service.allowed_actions
    aipy.Authorization.Permission.make_permission aipy.Authorization.Permission.resource
    aipy.Authorization.Service.authorize_by aipy.Authorization.Service.workflow_state_allowed
    aipy.Authorization.Service.violates_duties aipy.Authorization.Service.data_scope_allowed
    aipy.Authorization.Service.scope_matches
offers_test = refl

-- The board hides an action that the handler permits: its context has no assignee.
hidden_test : row_actions own_assignments operator Resource.review (task_board assigned_task) ≡ []
unfolding row_actions aipy.Authorization.Service.allowed_actions
    aipy.Authorization.Permission.make_permission aipy.Authorization.Permission.resource
    aipy.Authorization.Service.authorize_by aipy.Authorization.Service.workflow_state_allowed
    aipy.Authorization.Service.violates_duties aipy.Authorization.Service.data_scope_allowed
    aipy.Authorization.Service.scope_matches
hidden_test = refl

permitted_test :
    require_permission own_assignments operator Resource.review "submit" (task_board assigned_task)
    ≡ ok tt
unfolding require_permission aipy.Authorization.Service.authorize
    aipy.Authorization.Permission.make_permission aipy.Authorization.Permission.resource
    aipy.Authorization.Service.authorize_by aipy.Authorization.Service.workflow_state_allowed
    aipy.Authorization.Service.violates_duties aipy.Authorization.Service.data_scope_allowed
    aipy.Authorization.Service.scope_matches
permitted_test = refl

claim_offered :
    In "claim" (row_actions operator_policies operator Resource.review (task_board open_task))
claim_offered = subst (λ actions. In "claim" actions) (sym offers_test) (inl refl)

offered_is_permitted_example :
    require_permission operator_policies operator Resource.review "claim" (task_board open_task)
    ≡ ok tt
offered_is_permitted_example =
    offered_is_permitted operator_policies operator Resource.review (task_board open_task) "claim"
      claim_offered
