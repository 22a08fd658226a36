-- ===== src/Api/ComplexQuery.antt =====
-- `ValidatedComplexQuery` of ceilometer/api/controllers/v2/query.py. A filter is a tree, as the JSON
-- schema of `__init__` describes it; json.loads with jsonschema, and the parser of dates, are
-- parameters.
pub mod Traversal
pub mod Conversion
pub mod Visibility
use Prim.Native.String.{◌++◌ as concat}
use text.Mathlib.Text.{starts_with}
use stx_ceilometer.Prelude.{
  value_error, validation_error, client_side_error, project_not_authorized, key_error, ℕ, zero, suc,
  ◌+◌, ◌-◌, ◌*◌, ◌≤◌, ◌<◌, String, ◌≡◌, ◌≢◌, refl, sym, ap, ◌∙◌, subst, Bool, true, false, not,
  ◌&&◌, ◌||◌, ◌↔◌, ◌⊎◌, inl, inr, Option, none, some, List, [], ◌∷◌, ◌++◌, map, append-nil,
  append_assoc, arith, Result, ok, raise, Exception, ◌>>=◌, ◌>>◌, >>=-eq-ok, if◌then◌else◌,
  Bool-cases, Option-cases, ◌==◌, ==_iff, ==_refl, length, contains, All, IsUnique, string_eq, ltb,
  leb, any, all, filter, is_empty, key_error, project_not_authorized, map_result, client_side_error,
  or_else,
}
use stx_ceilometer.Prelude.Dict
use stx_ceilometer.Prelude.Int.{ℤ}
use stx_ceilometer.Utils.{lower}
use stx_ceilometer.Api.Rbac.{enforce, Request, get_limited_to_project}
use stx_ceilometer.Api.Query.{enforce_limit}

-- What a field is compared with: a text, or another value of type V, as a number, a list or a date.
pub data Operand (V : Type 0) : Type 0 where
  string : String → Operand V
  other : V → Operand V

-- {"and": [...]} or {"or": [...]}; {"not": {...}}; and {operator: {field: value}}. Operators keep
-- the case in which they were written.
mutual
  pub data Filter (V : Type 0) : Type 0 where
    junction : String → Filters V → Filter V
    negation : String → Filter V → Filter V
    leaf : String → String → Operand V → Filter V

  pub data Filters (V : Type 0) : Type 0 where
    end : Filters V
    operand : Filter V → Filters V → Filters V

abbrev pub timestamp_fields : List String
timestamp_fields = "timestamp" ∷ "state_timestamp" ∷ []

-- `name_mapping` with the additional names
abbrev pub name_mapping : List (String × String) → List (String × String)
name_mapping additional = update (("user", "user_id") ∷ ("project", "project_id") ∷ []) additional
  where
    update : List (String × String) → List (String × String) → List (String × String)
    update d [] = d
    update d ((k, v) ∷ rest) = update (Dict.put d k v) rest

-- `_replace_field_names` of a dict of one key: a second `del` of the key raises.
unfoldable pub replace_field_name : List (String × String) → String → Result String
replace_field_name mapping field =
    if starts_with field "metadata."
    then elim (Dict.get mapping field) [
      | some name ↦ raise key_error
      | none ↦ ok (concat "resource_" field)
    ]
    else ok (or_else (Dict.get mapping field) field)

module _ {V : Type 0} where
  -- The operator of a filter.
  abbrev pub operator : Filter V → String
  operator (junction op fs) = op
  operator (negation op f) = op
  operator (leaf op field value) = op

  -- The filter under another operator.
  abbrev with_operator : String → Filter V → Filter V
  with_operator op (junction _ fs) = junction op fs
  with_operator op (negation _ f) = negation op f
  with_operator op (leaf _ field value) = leaf op field value

  -- `_traverse_postorder`, of a visitor that gives the changed tree
  unfoldable mutual
    pub traverse_postorder : (Filter V → Result (Filter V)) → Filter V → Result (Filter V)
    traverse_postorder visitor (junction op fs) =
        traverse_operands visitor fs >>= λ fs'. visitor (junction op fs')
    traverse_postorder visitor (negation op f) =
        traverse_postorder visitor f >>= λ f'. visitor (negation op f')
    traverse_postorder visitor (leaf op field value) = visitor (leaf op field value)

    pub traverse_operands : (Filter V → Result (Filter V)) → Filters V → Result (Filters V)
    traverse_operands visitor end = ok end
    traverse_operands visitor (operand f fs) = traverse_postorder visitor f >>= λ f'.
        traverse_operands visitor fs >>= λ fs'. ok (operand f' fs')

  -- `value[visibility_field] != own_project_id`
  abbrev pub is_own : String → Operand V → Bool
  is_own own (string s) = s == own
  is_own own (other v) = false

  -- `check_project_id`: under `not` the key is the operator of the filter below.
  unfoldable pub check_project_id : String → String → Filter V → Result (Filter V)
  check_project_id own visibility_field (junction op fs) = ok (junction op fs)
  check_project_id own visibility_field (negation op f) =
      if operator f == visibility_field then raise project_not_authorized else ok (negation op f)
  check_project_id own visibility_field (leaf op field value) =
      if field == visibility_field && not (is_own own value)
      then raise project_not_authorized
      else ok (leaf op field value)

  -- `_restrict_to_project`
  abbrev pub restrict_to_project : String → String → Option (Filter V) → Filter V
  restrict_to_project project_id visibility_field none =
      leaf "=" visibility_field (string project_id)
  restrict_to_project project_id visibility_field (some f) =
      junction "and" (operand (leaf "=" visibility_field (string project_id)) (operand f end))

  -- `_force_visibility`, with `_check_cross_project_references`
  unfoldable pub force_visibility :
      Request → String → Option (Filter V) → Result (Option (Filter V))
  unfolding traverse_postorder check_project_id
  force_visibility request visibility_field filter_expr = elim (get_limited_to_project request) [
    | none ↦ ok filter_expr
    | some p ↦ map_result some (
        traverse_postorder (check_project_id p visibility_field)
          (restrict_to_project p visibility_field filter_expr))
  ]

  -- `_normalize_field_names`: under `not` the key is the operator of the filter below.
  unfoldable pub normalize_field_names : List (String × String) → Filter V → Result (Filter V)
  unfolding replace_field_name
  normalize_field_names mapping (junction op fs) = ok (junction op fs)
  normalize_field_names mapping (negation op f) =
      map_result (λ name. negation op (with_operator name f))
        (replace_field_name mapping (operator f))
  normalize_field_names mapping (leaf op field value) =
      map_result (λ name. leaf op name value) (replace_field_name mapping field)

  -- `lowercase_keys` of one node
  unfoldable pub lowercase_operator : Filter V → Result (Filter V)
  unfolding lower
  lowercase_operator f = ok (with_operator (lower (operator f)) f)

-- The parsers: what json.loads and the schema leave of a filter and of an order, and a date without
-- its zone of a text or of another value.
pub record Parsers (V : Type 0) : Type 0 where
  pub load_filter : String → Result (Filter V)
  pub load_orderby : String → Result (List (String × String))
  pub parse_isotime : Operand V → Result V

-- `ComplexQuery`; none stands for Unset.
pub record ComplexQuery : Type 0 where
  pub filter_text : Option String
  pub orderby_text : Option String
  pub limit : Option ℤ

-- What `validate` sets.
pub record Validated (V : Type 0) : Type 0 where
  pub filter_expr : Option (Filter V)
  pub orderby : Option (List (String × String))
  pub limit : ℤ

-- ValueError and ValidationError become ClientSideError.
abbrev refused {ℓ} : {A : Type ℓ} → Result A → Result A
refused (ok a) = ok a
refused (raise value_error) = raise client_side_error
refused (raise validation_error) = raise client_side_error
refused (raise e) = raise e

-- A ValueError of the parser of dates becomes ClientSideError.
abbrev pub date_error : Exception → Exception
date_error value_error = client_side_error
date_error e = e

module _ {V : Type 0} (parsers : Parsers V) where
  -- `_convert_to_datetime`
  abbrev pub convert_to_datetime : Operand V → Result (Operand V)
  convert_to_datetime isotime = elim (parsers.parse_isotime isotime) [
    | ok t ↦ ok (other t)
    | raise e ↦ raise (date_error e)
  ]

  -- `replace_isotime`: under `not` the key is the operator of the filter below, whose value is no
  -- date.
  unfoldable pub replace_isotime : Filter V → Result (Filter V)
  replace_isotime (junction op fs) = ok (junction op fs)
  replace_isotime (negation op f) =
      if contains timestamp_fields (operator f) then raise client_side_error else ok (negation op f)
  replace_isotime (leaf op field value) =
      if contains timestamp_fields field
      then map_result (λ date_time. leaf op field date_time) (convert_to_datetime value)
      else ok (leaf op field value)

  -- What `validate` does to a filter that was given.
  unfoldable pub converted : List (String × String) → Filter V → Result (Filter V)
  unfolding replace_isotime lowercase_operator normalize_field_names traverse_postorder
  converted mapping filter_expr =
      traverse_postorder replace_isotime filter_expr
      >>= traverse_postorder lowercase_operator
      >>= traverse_postorder (normalize_field_names mapping)

  abbrev pub load_given : List (String × String) → Option String → Result (Option (Filter V))
  load_given mapping none = ok none
  load_given mapping (some s) =
      map_result some (refused (parsers.load_filter s) >>= converted mapping)

  -- `_convert_orderby_to_lower_case`
  abbrev lowercase_values : List (String × String) → List (String × String)
  lowercase_values = map (λ entry. (entry.0, lower entry.1))

  -- `_normalize_field_names_in_orderby`
  normalize_orderby :
      List (String × String) → List (String × String) → Result (List (String × String))
  normalize_orderby mapping [] = ok []
  normalize_orderby mapping ((field, direction) ∷ rest) = do
    name ← replace_field_name mapping field
    others ← normalize_orderby mapping rest
    ok ((name, direction) ∷ others)

  orderby_of : List (String × String) → Option String → Result (Option (List (String × String)))
  unfolding normalize_orderby
  orderby_of mapping none = ok none
  orderby_of mapping (some s) =
      map_result some
        (refused (parsers.load_orderby s) >>= λ o. normalize_orderby mapping (lowercase_values o))

  -- `validate`
  unfoldable pub validate :
      Request → ℤ → List (String × String) → ComplexQuery → String → Result (Validated V)
  unfolding force_visibility orderby_of enforce_limit
  validate request default_limit additional query visibility_field = do
    given ← load_given (name_mapping additional) query.filter_text
    filter_expr ← force_visibility request visibility_field given
    orderby ← orderby_of (name_mapping additional) query.orderby_text
    limit ← enforce_limit default_limit query.limit
    ok (record { filter_expr = filter_expr; orderby = orderby; limit = limit })

-- `QuerySamplesController.post`
abbrev pub sample_name_mapping : List (String × String)
sample_name_mapping =
    ("resource", "resource_id")
    ∷ ("meter", "counter_name")
    ∷ ("type", "counter_type")
    ∷ ("unit", "counter_unit")
    ∷ ("volume", "counter_volume")
    ∷ []

unfoldable pub post :
    {V S A : Type 0}
    → Parsers V
    → (Validated V → Result (List S))
    → (S → A)
    → Request
    → ℤ
    → ComplexQuery
    → Result (List A)
unfolding validate enforce
post parsers query_samples from_db_model request default_limit body = do
  u ← enforce "query_sample" request
  query ← validate parsers request default_limit sample_name_mapping body "project_id"
  samples ← query_samples query
  ok (map from_db_model samples)
