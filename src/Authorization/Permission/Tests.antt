-- ===== src/Authorization/Permission/Tests.antt =====
-- Permission codes that the program uses.
use aipy.Prelude.{refl, true, none, some, ◌≡◌}
use aipy.Authorization.Permission.{Permission, match_action, make_permission}

abbrev approve : Permission
approve = record { code = "review:approve" }

accepted : make_permission "review:approve" ≡ some approve
unfolding make_permission
accepted = refl

refused_test : make_permission "review:" ≡ none
unfolding make_permission
refused_test = refl

review_is_name : match_action "review" ≡ true
unfolding match_action
review_is_name = refl

approve_is_name : match_action "approve" ≡ true
unfolding match_action
approve_is_name = refl
