-- ===== src/Tests/Api.antt =====
-- Queries of a request that is limited to the project "p", of a policy that allows nothing.
use stx_ceilometer.Prelude.{if◌then◌else◌, ◌==◌, ◌&&◌, value_error, Bool}
use stx_ceilometer.Utils.{lower}
use stx_ceilometer.Api.Rbac.{get_limited_to_project}
use stx_ceilometer.Api.ComplexQuery.{
  Operand, string, Filter, junction, negation, leaf, end, operand, Parsers, ComplexQuery, Validated,
  validate, load_given, converted, name_mapping, sample_name_mapping, restrict_to_project, is_own,
}
use stx_ceilometer.Api.ComplexQuery.Traversal.{Every, selects_given}
use stx_ceilometer.Api.ComplexQuery.Conversion.{is_foreign}
use stx_ceilometer.Api.ComplexQuery.Visibility.{visible_to, validate-selects, validate-own}
use stx_ceilometer.Api.Rbac.{Request, get_limited_to, policy_dict, split_comma}
use stx_ceilometer.Api.Query.{Kwargs, Op, eq, ge, Query, Values, query_to_kwargs, translate, Kwargs}
use stx_ceilometer.Api.Query.Projects.{query_to_kwargs-project, query_to_kwargs-foreign}
use stx_ceilometer.Prelude.Dict
use stx_ceilometer.Prelude.Int.{pos}
use stx_ceilometer.Prelude.{
  String, ◌≡◌, refl, true, false, none, some, List, [], ◌∷◌, ok, raise, string_eq, syntax_error,
  project_not_authorized,
}

abbrev request : Request
request = record {
  headers = ("X-Roles", "member") ∷ ("X-Project-Id", "p") ∷ [];
  enforcer = record { rules = "segregation" ∷ []; is_allowed = λ rule policy. false };
}

-- Values are texts, and dates too.
abbrev values : Values String String
values = record {
  text = λ s. s;
  literal_eval = λ s. raise syntax_error;
  convert = λ type s. ok s;
  to_int = λ s. ok (pos 0);
  parse_isotime = λ s. ok s;
  earlier = λ offset t. ok t;
  later = λ offset t. ok t;
}

abbrev db_args : List String
db_args = "self" ∷ "user" ∷ "project" ∷ "start_timestamp" ∷ "metaquery" ∷ []

abbrev item : String → Op → String → Query
item field op value = record { field = field; given_op = some op; value = value; type = none }

abbrev after : Query
after = item "timestamp" ge "2013"

abbrev accepted : List Query
accepted = item "user_id" eq "u" ∷ after ∷ []

abbrev kwargs : Kwargs String String
kwargs = record {
  fields = ("user", "u") ∷ ("project", "p") ∷ [];
  metaquery = none;
  bounds = some (record {
    start_timestamp = some "2013";
    end_timestamp = none;
    start_timestamp_op = some ge;
    end_timestamp_op = none;
  });
}

accepted_kwargs : query_to_kwargs values request accepted db_args [] true ≡ ok kwargs
unfolding query_to_kwargs get_limited_to policy_dict split_comma translate Dict.get Dict.put
accepted_kwargs = refl

query_to_kwargs-project_example : Dict.get kwargs.fields "project" ≡ some "p"
unfolding query_to_kwargs get_limited_to policy_dict split_comma translate Dict.get Dict.put
query_to_kwargs-project_example =
    query_to_kwargs-project request "p" refl refl values accepted db_args [] true kwargs refl
      accepted_kwargs

query_to_kwargs-foreign_example :
    query_to_kwargs values request (after ∷ item "project_id" eq "other" ∷ []) db_args [] true
    ≡ raise project_not_authorized
unfolding get_limited_to policy_dict split_comma Dict.get
query_to_kwargs-foreign_example =
    query_to_kwargs-foreign request "p" refl refl values (after ∷ item "project_id" eq "other" ∷ [])
      db_args [] true refl

-- A complex query of the filter {"AND": [{"=": {"user": "u"}}, {"not": {"=": {"project": "p"}}}]}.
abbrev own_filter : Filter String
own_filter = junction "AND" (
    operand (leaf "=" "user" (string "u"))
      (operand (negation "not" (leaf "=" "project" (string "p"))) end))

abbrev parsers : Parsers String
parsers = record {
  load_filter = λ s. ok own_filter;
  load_orderby = λ s. ok [];
  parse_isotime = λ v. raise value_error;
}

abbrev complex_query : ComplexQuery
complex_query = record { filter_text = some "{}"; orderby_text = none; limit = some (pos 5) }

abbrev converted_filter : Filter String
converted_filter = junction "and" (
    operand (leaf "=" "user_id" (string "u"))
      (operand (negation "not" (leaf "=" "project_id" (string "p"))) end))

abbrev validated : Validated String
validated = record {
  filter_expr = some (restrict_to_project "p" "project_id" (some converted_filter));
  orderby = none;
  limit = pos 5;
}

validated_query :
    validate parsers request (pos 100) sample_name_mapping complex_query "project_id" ≡ ok validated
unfolding validate get_limited_to policy_dict split_comma Dict.get Dict.put lower converted
validated_query = refl

loaded_filter :
    load_given parsers (name_mapping sample_name_mapping) complex_query.filter_text
    ≡ ok (some converted_filter)
unfolding converted Dict.get Dict.put lower
loaded_filter = refl

-- A row of the user "u" and of the project "q".
abbrev holds_of_row : String → String → Operand String → Bool
holds_of_row op field value = is_own (if field == "user_id" then "u" else "q") value

validate-selects_example : selects_given holds_of_row validated.filter_expr ≡ (
    visible_to (get_limited_to_project request) holds_of_row "project_id"
    && selects_given holds_of_row (some converted_filter))
validate-selects_example =
    validate-selects parsers request holds_of_row (pos 100) sample_name_mapping complex_query
      "project_id" (some converted_filter) validated loaded_filter validated_query

validate-own_example :
    Every
      (λ field value.
        is_foreign (name_mapping sample_name_mapping) "p" "project_id" field value ≡ false)
      own_filter
unfolding get_limited_to Dict.get
validate-own_example =
    validate-own parsers request (pos 100) sample_name_mapping complex_query "project_id" "p" "{}"
      own_filter validated refl refl refl validated_query
