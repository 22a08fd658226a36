-- ===== src/Api/Query.antt =====
-- ceilometer/api/controllers/v2/utils.py, and `Query` of ceilometer/api/controllers/v2/base.py: how
-- the query of a request is checked and made arguments of the storage. The converters of types, the
-- parser of dates and the arithmetic of dates are parameters.
pub mod Gathering
pub mod Projects
use Prim.Native.String.{len, slice}
use text.Mathlib.Text.{starts_with}
use stx_ceilometer.Prelude.{
  String, Bool, true, false, not, ◌&&◌, ◌||◌, Option, none, some, List, [], ◌∷◌, ◌++◌, Result, ok,
  raise, Exception, ◌>>=◌, ◌>>◌, if◌then◌else◌, ◌==◌, contains, string_eq, any, filter, is_empty,
  option_beq, map_result,
}
use stx_ceilometer.Prelude.{
  or_else, is_some, truthy, client_side_error, project_not_authorized, invalid_input,
  unknown_argument, value_error, syntax_error,
}
use stx_ceilometer.Prelude.Dict
use stx_ceilometer.Prelude.Int.{ℤ, pos, leb_ℤ}
use stx_ceilometer.Api.Rbac.{Request, get_limited_to_project}

pub data Op : Type 0 where
  lt le eq ne ge gt : Op

abbrev pub op_beq : Op → Op → Bool
op_beq lt lt = true
op_beq le le = true
op_beq eq eq = true
op_beq ne ne = true
op_beq ge ge = true
op_beq gt gt = true
op_beq _ _ = false

-- `Query`; `type` is None if it was not given.
pub record Query : Type 0 where
  pub field : String
  pub given_op : Option Op
  pub value : String
  pub type : Option String

-- `get_op`
abbrev pub op_of : Query → Op
op_of q = or_else q.given_op eq

abbrev pub supported_types : List String
supported_types = "integer" ∷ "float" ∷ "string" ∷ "boolean" ∷ "datetime" ∷ []

-- What the functions use of Python's values of type V and dates of type T.
pub record Values (V T : Type 0) : Type 0 where
  pub text : String → V
  pub literal_eval : String → Result V
  pub convert : String → String → Result V
  pub to_int : String → Result ℤ
  pub parse_isotime : String → Result T
  pub earlier : ℤ → T → Result T
  pub later : ℤ → T → Result T

abbrev is_unreadable : Exception → Bool
is_unreadable value_error = true
is_unreadable syntax_error = true
is_unreadable _ = false

abbrev pub is_timestamp_field : String → Bool
is_timestamp_field field = field == "timestamp" || field == "search_offset"

abbrev pub is_field_metadata : String → Bool
is_field_metadata field = starts_with field "metadata." || starts_with field "resource_metadata."

-- `translation.get(field, field)`
unfoldable pub translate : String → String
translate field =
    if field == "user_id"
    then "user"
    else if field == "project_id"
    then "project"
    else if field == "resource_id"
    then "resource"
    else field

-- `enforce_limit`, of the default limit
unfoldable pub enforce_limit : ℤ → Option ℤ → Result ℤ
enforce_limit default limit =
    let n = or_else limit default in if leb_ℤ n (pos 0) then raise client_side_error else ok n

-- `get_auth_project`
unfoldable pub get_auth_project : Request → Option String → Option String
get_auth_project request on_behalf_of = elim (get_limited_to_project request) [
  | some p ↦ some p
  | none ↦
      if option_beq on_behalf_of (Dict.get request.headers "X-Project-Id")
      then none
      else on_behalf_of
]

abbrev pub names_project : Query → Bool
names_project q = q.field == "project" || q.field == "project_id"

-- `_verify_query_segregation` for a project
unfoldable pub verify_projects : String → List Query → Result (Unit {0})
verify_projects p [] = ok tt
verify_projects p (q ∷ qs) =
    if names_project q && not (p == q.value)
    then raise project_not_authorized
    else verify_projects p qs

-- `_verify_query_segregation`
unfoldable pub verify_query_segregation : Request → List Query → Option String → Result (Unit {0})
unfolding verify_projects
verify_query_segregation request query auth_project =
    let limited = or_else_project (truthy auth_project) in
    elim (truthy limited) [ none ↦ ok tt | some p ↦ verify_projects p query ]
  where
    or_else_project : Option String → Option String
    or_else_project none = get_limited_to_project request
    or_else_project (some p) = some p

-- `sanitize_query`; `args` are the names of the arguments of the storage's function.
unfoldable pub sanitize_query :
    Request → List Query → List String → Option String → Result (List Query)
unfolding verify_query_segregation get_auth_project
sanitize_query request query args on_behalf_of =
    elim (truthy (get_auth_project request on_behalf_of)) [
      | none ↦ ok query
      | some p ↦
          verify_query_segregation request query (some p)
          >> ok (
              if not (any (λ q. q.field == "project_id") query)
                && not (contains args "on_behalf_of")
              then query
                ++ record { field = "project_id"; given_op = some eq; value = p; type = none } ∷ []
              else query)
    ]

-- `_validate_timestamp_fields`: the first item of the field decides.
unfoldable pub validate_timestamp_fields : List Query → String → List Op → Bool → Result Bool
validate_timestamp_fields [] name ops allowed = ok false
validate_timestamp_fields (q ∷ qs) name ops allowed =
    if not (q.field == name)
    then validate_timestamp_fields qs name ops allowed
    else if not allowed
    then raise unknown_argument
    else if not (any (op_beq (op_of q)) ops)
    then raise invalid_input
    else ok true

-- The valid keys of `validate_query`.
unfoldable pub valid_keys : List String → List String → List String
valid_keys args internal_keys =
    let stamped = contains args "start_timestamp" in
    let internal =
      internal_keys
      ++ (if stamped
          then "end_timestamp" ∷ "start_timestamp" ∷ "end_timestamp_op" ∷ "start_timestamp_op" ∷ []
          else [])
      ++ "self" ∷ "metaquery" ∷ [] in
    filter (λ k. not (contains internal k))
      (args ++ (if stamped then "timestamp" ∷ "search_offset" ∷ [] else []))

-- `stamp`: the bounds with their operators, and the offset.
pub record Stamp : Type 0 where
  pub start : Option (String × Op)
  pub end : Option (String × Op)
  pub search_offset : Option String

-- `kwargs`, `metaquery` and `stamp`
pub record Gathered (V : Type 0) : Type 0 where
  pub kwargs : List (String × V)
  pub metaquery : List (String × V)
  pub stamp : Stamp

-- What `_get_query_timestamps` returns.
pub record Bounds (T : Type 0) : Type 0 where
  pub start_timestamp : Option T
  pub end_timestamp : Option T
  pub start_timestamp_op : Option Op
  pub end_timestamp_op : Option Op

-- The arguments: fields, `metaquery`, and the bounds, which no field can name.
pub record Kwargs (V T : Type 0) : Type 0 where
  pub fields : List (String × V)
  pub metaquery : Option (List (String × V))
  pub bounds : Option (Bounds T)

module _ {V T : Type 0} (values : Values V T) where
  -- `_get_value_as_type`: every exception of a conversion becomes a ClientSideError.
  unfoldable pub value_as_type : Query → Option String → Result V
  value_as_type q forced = elim (truthy (some (or_else (truthy forced) (or_else q.type "")))) [
    | none ↦ elim (values.literal_eval q.value) [
      | ok v ↦ ok v
      | raise e ↦ if is_unreadable e then ok (values.text q.value) else raise client_side_error
    ]
    | some t ↦
        if not (contains supported_types t)
        then raise client_side_error
        else elim (values.convert t q.value) [ ok v ↦ ok v | raise e ↦ raise client_side_error ]
  ]

  -- One round of the last loop of `validate_query`.
  unfoldable pub check_item : List String → Query → Result (Unit {0})
  unfolding value_as_type translate
  check_item valid q =
      let key = translate q.field in
      if is_timestamp_field q.field
      then ok tt
      else if not (contains valid key || is_field_metadata q.field)
      then raise unknown_argument
      else if not (op_beq (op_of q) eq)
      then raise invalid_input
      else if key == "enabled"
      then map_result (λ v. tt) (value_as_type q (some "boolean"))
      else if is_field_metadata key
      then map_result (λ v. tt) (value_as_type q none)
      else ok tt

  unfoldable pub check_items : List String → List Query → Result (Unit {0})
  unfolding check_item
  check_items valid [] = ok tt
  check_items valid (q ∷ qs) = check_item valid q >> check_items valid qs

  -- An offset without a timestamp is refused.
  abbrev check_offset : Bool → Bool → Result (Unit {0})
  check_offset has_offset has_timestamp =
      if has_offset && not has_timestamp then raise invalid_input else ok tt

  -- `validate_query`
  unfoldable pub validate_query :
      Request → List Query → List String → List String → Bool → Result (Unit {0})
  unfolding check_items validate_timestamp_fields verify_query_segregation valid_keys
  validate_query request query args internal_keys allow_timestamps = do
    u ← verify_query_segregation request query none
    has_timestamp ←
        validate_timestamp_fields query "timestamp" (lt ∷ le ∷ gt ∷ ge ∷ []) allow_timestamps
    has_offset ← validate_timestamp_fields query "search_offset" (eq ∷ []) allow_timestamps
    v ← check_offset has_offset has_timestamp
    check_items (valid_keys args internal_keys) query

  gather_timestamp : Query → Op → Gathered V → Gathered V
  gather_timestamp q lt g = record g { stamp = record g.stamp { end = some (q.value, lt) } }
  gather_timestamp q le g = record g { stamp = record g.stamp { end = some (q.value, le) } }
  gather_timestamp q gt g = record g { stamp = record g.stamp { start = some (q.value, gt) } }
  gather_timestamp q ge g = record g { stamp = record g.stamp { start = some (q.value, ge) } }
  gather_timestamp q eq g = g
  gather_timestamp q ne g = g

  -- An item with `eq` that is no timestamp.
  unfoldable pub gather_equation : Query → Gathered V → Result (Gathered V)
  unfolding value_as_type translate
  gather_equation q g =
      if q.field == "search_offset"
      then ok (record g { stamp = record g.stamp { search_offset = some q.value } })
      else if q.field == "enabled"
      then map_result (λ v. record g { kwargs = Dict.put g.kwargs q.field v })
          (value_as_type q (some "boolean"))
      else if starts_with q.field "metadata."
      then map_result (λ v. record g { metaquery = Dict.put g.metaquery q.field v })
          (value_as_type q none)
      else if starts_with q.field "resource_metadata."
      then map_result
          (λ v. record g { metaquery = Dict.put g.metaquery (slice q.field 9 (len q.field)) v })
          (value_as_type q none)
      else ok (record g { kwargs = Dict.put g.kwargs (translate q.field) (values.text q.value) })

  -- One round of the loop of `query_to_kwargs`.
  unfoldable pub gather_item : Query → Gathered V → Result (Gathered V)
  unfolding gather_timestamp gather_equation
  gather_item q g =
      if q.field == "timestamp"
      then ok (gather_timestamp q (op_of q) g)
      else if not (op_beq (op_of q) eq)
      then ok g
      else gather_equation q g

  unfoldable pub gather_items : List Query → Gathered V → Result (Gathered V)
  unfolding gather_item
  gather_items [] g = ok g
  gather_items (q ∷ qs) g = gather_item q g >>= gather_items qs

  -- `_parse_timestamp`: only a ValueError is turned into InvalidInput.
  parse_timestamp : Option (String × Op) → Result (Option T)
  parse_timestamp none = ok none
  parse_timestamp (some (s, op)) = if s == "" then ok none else elim (values.parse_isotime s) [
    | ok t ↦ ok (some t)
    | raise value_error ↦ raise invalid_input
    | raise e ↦ raise e
  ]

  -- A date that no longer fits raises.
  abbrev moved : (T → Result T) → Option T → Result (Option T)
  moved move none = ok none
  moved move (some t) = map_result some (move t)

  abbrev bound_op : Option (String × Op) → Option Op
  bound_op none = none
  bound_op (some (s, op)) = some op

  -- `_get_query_timestamps`
  unfoldable pub get_query_timestamps : Stamp → Result (Bounds T)
  unfolding parse_timestamp
  get_query_timestamps stamp = do
    offset ← values.to_int (or_else stamp.search_offset "0")
    first ← parse_timestamp stamp.start
    last ← parse_timestamp stamp.end
    start ← moved (values.earlier offset) first
    end ← moved (values.later offset) last
    ok (record {
      start_timestamp = start;
      end_timestamp = end;
      start_timestamp_op = bound_op stamp.start;
      end_timestamp_op = bound_op stamp.end;
    })

  abbrev is_stamped : Stamp → Bool
  is_stamped stamp = is_some stamp.start || is_some stamp.end || is_some stamp.search_offset

  unfoldable pub kwargs_of : Gathered V → List String → Result (Kwargs V T)
  unfolding get_query_timestamps
  kwargs_of g args =
      let metaquery : Option (List (String × V)) =
        if not (is_empty g.metaquery) && contains args "metaquery"
        then some g.metaquery
        else none in
      if is_stamped g.stamp
      then map_result (λ b. record { fields = g.kwargs; metaquery = metaquery; bounds = some b })
          (get_query_timestamps g.stamp)
      else ok (record { fields = g.kwargs; metaquery = metaquery; bounds = none })

  abbrev pub nothing_gathered : Gathered V
  nothing_gathered = record {
    kwargs = [];
    metaquery = [];
    stamp = record { start = none; end = none; search_offset = none };
  }

  -- `query_to_kwargs`
  unfoldable pub query_to_kwargs :
      Request → List Query → List String → List String → Bool → Result (Kwargs V T)
  unfolding validate_query sanitize_query gather_items kwargs_of
  query_to_kwargs request [] args internal_keys allow_timestamps =
      ok (record { fields = []; metaquery = none; bounds = none })
  query_to_kwargs request (q ∷ qs) args internal_keys allow_timestamps = do
    u ← validate_query request (q ∷ qs) args internal_keys allow_timestamps
    query ← sanitize_query request (q ∷ qs) args none
    g ← gather_items query nothing_gathered
    kwargs_of g args
