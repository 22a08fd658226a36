-- ===== src/Api/Rbac.antt =====
-- ceilometer/api/rbac.py. The enforcer of oslo.policy is a parameter.
use Prim.Native.Char.{code}
use Prim.Native.String.{◌++◌ as concat}
use stx_ceilometer.Prelude.{
  String, Bool, not, ◌&&◌, ◌||◌, Option, none, List, [], ◌∷◌, Result, ok, raise, if◌then◌else◌,
  ◌==◌, contains, string_eq, nat_eq,
}
use stx_ceilometer.Prelude.{forbidden, or_else}
use stx_ceilometer.Prelude.Dict

-- `s.split(",")`
unfoldable pub split_comma : String → List String
split_comma String.[] = "" ∷ []
split_comma (String.◌∷◌ c s) = elim (split_comma s) [
  | [] ↦ []
  | part ∷ parts ↦ if code c == 44 then "" ∷ part ∷ parts else String.◌∷◌ c part ∷ parts
]

pub record Policy : Type 0 where
  pub roles : List String
  pub user_id : Option String
  pub project_id : Option String

-- `pecan.request.enforcer`
pub record Enforcer : Type 0 where
  pub rules : List String
  pub is_allowed : String → Policy → Bool

-- The headers of the request and its enforcer.
pub record Request : Type 0 where
  pub headers : List (String × String)
  pub enforcer : Enforcer

abbrev has_rule : Request → String → Bool
has_rule request name = contains request.enforcer.rules name

unfoldable pub policy_dict : Request → Policy
unfolding split_comma
policy_dict request = record {
  roles = split_comma (or_else (Dict.get request.headers "X-Roles") "");
  user_id = Dict.get request.headers "X-User-Id";
  project_id = Dict.get request.headers "X-Project-Id";
}

-- `enforce`, which aborts with 403.
unfoldable pub enforce : String → Request → Result (Unit {0})
unfolding policy_dict
enforce policy_name request =
    let rule = concat "telemetry:" policy_name in
    if (has_rule request "default" || has_rule request rule)
      && not (request.enforcer.is_allowed rule (policy_dict request))
    then raise forbidden
    else ok tt

-- `get_limited_to`: the user and the project.
unfoldable pub get_limited_to : Request → Option String × Option String
unfolding policy_dict
get_limited_to request =
    let rule = if has_rule request "segregation" then "segregation" else "context_is_admin" in
    if request.enforcer.is_allowed rule (policy_dict request)
    then (none, none)
    else (Dict.get request.headers "X-User-Id", Dict.get request.headers "X-Project-Id")

abbrev pub get_limited_to_project : Request → Option String
get_limited_to_project request = (get_limited_to request).1
