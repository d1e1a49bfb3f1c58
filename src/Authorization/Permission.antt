-- ===== src/Authorization/Permission.antt =====
-- Permission codes, `resource:action`, of src/aipy/modules/authorization/domain/models.py.
pub mod Laws
mod Tests
use aipy.Prelude.{
  String, Bool, true, false, Option, none, some, ◌&&◌, ◌||◌, ◌==◌, if◌then◌else◌, is_lower,
  is_digit, string_eq, nat_eq,
}
use Prim.Native.Char.{Char, code}
use Prim.Native.String

abbrev is_colon : Char → Bool
is_colon c = code c == b':'

-- `[a-z0-9_]`
abbrev is_name_char : Char → Bool
is_name_char c = is_lower c || (is_digit c || code c == b'_')

-- `_PERMISSION_PATTERN.fullmatch`, the expression `[a-z][a-z0-9_]*:[a-z][a-z0-9_]*` read from the
-- left: one function for each place in it.
match_action_rest : String → Bool
match_action_rest String.[] = true
match_action_rest (String.◌∷◌ c s) = is_name_char c && match_action_rest s

pub match_action : String → Bool
unfolding match_action_rest
match_action String.[] = false
match_action (String.◌∷◌ c s) = is_lower c && match_action_rest s

match_resource_rest : String → Bool
unfolding match_action
match_resource_rest String.[] = false
match_resource_rest (String.◌∷◌ c s) =
    let rest = match_resource_rest s in
    if is_colon c then match_action s else is_name_char c && rest

unfoldable pub match_permission : String → Bool
unfolding match_resource_rest
match_permission String.[] = false
match_permission (String.◌∷◌ c s) = is_lower c && match_resource_rest s

pub record Permission : Type 0 where
  pub code : String

-- `Permission(code=value)`; a `ValidationError` is `none`.
unfoldable pub make_permission : String → Option Permission
unfolding match_permission
make_permission value = if match_permission value then some (record { code = value }) else none

-- `code.split(":", maxsplit=1)`: the part before the first colon, and the part after it if there
-- is a colon.
before_colon : String → String
before_colon String.[] = ""
before_colon (String.◌∷◌ c s) =
    let rest = String.◌∷◌ c (before_colon s) in if is_colon c then "" else rest

after_colon : String → Option String
after_colon String.[] = none
after_colon (String.◌∷◌ c s) = let rest = after_colon s in if is_colon c then some s else rest

unfoldable pub resource : Permission → String
unfolding before_colon
resource p = before_colon p.code

-- `none` stands for the `IndexError` of a code without a colon.
unfoldable pub action : Permission → Option String
unfolding after_colon
action p = after_colon p.code
