-- ===== src/Meter/Loading.antt =====
-- How ceilometer/meter/notifications.py reads the definitions of meters. The operations on the values
-- of the configuration, of type C, are parameters.
pub mod Last
use stx_ceilometer.Prelude.{
  String, Bool, true, false, not, ◌&&◌, Option, none, some, List, [], ◌∷◌, Result, ok, raise,
  Exception, ◌>>=◌, if◌then◌else◌, contains, string_eq, any, map_result,
}
use stx_ceilometer.Prelude.{
  is_some, meter_definition_exception, required_fields_missing, type_invalid, definition_exception,
  event_definition_exception, resource_definition_exception,
}
use stx_ceilometer.Prelude.Dict
use mathlib.Core.List.{reverse}
use stx_ceilometer.Declarative.{Definition}
use stx_ceilometer.Meter.{MeterDefinition, sample_attributes}

abbrev pub sample_types : List String
sample_types = "gauge" ∷ "delta" ∷ "cumulative" ∷ []

-- What the code does with the values of a configuration, of type C: `contains` is Python's `in`,
-- `strings` makes a list of one string, `text` is none but for a string, and `key` is a key of a
-- dict, which raises TypeError for a list or a dict.
pub record Config (B V C : Type 0) : Type 0 where
  pub is_true : C → Bool
  pub contains : C → String → Bool
  pub strings : C → List String
  pub text : C → Option String
  pub key : C → Result String
  pub entries : C → List (String × C)
  pub value : C → V
  pub make : C → Result (Definition B V)

-- `except declarative.DefinitionException`, with its subclasses
abbrev pub is_definition_error : Exception → Bool
is_definition_error (definition_exception m) = true
is_definition_error (event_definition_exception m) = true
is_definition_error (resource_definition_exception m) = true
is_definition_error (meter_definition_exception m) = true
is_definition_error _ = false

module _ {B V : Type 0} where
  abbrev pub is_known : List (String × MeterDefinition B V) → Option String → Bool
  is_known ds none = false
  is_known ds (some n) = is_some (Dict.get ds n)

  abbrev pub with_name :
      List (String × MeterDefinition B V)
      → MeterDefinition B V
      → Option String
      → List (String × MeterDefinition B V)
  with_name ds md none = ds
  with_name ds md (some n) = Dict.put ds n md

module _ {B V C : Type 0} (config : Config B V C) where
  -- `if not self.cfg.get(field)`
  abbrev pub given : List (String × C) → String → Option C
  given cfg field = elim (Dict.get cfg field) [
    | none ↦ none
    | some c ↦ if config.is_true c then some c else none
  ]

  abbrev required : List (String × C) → String → Result C
  required cfg field = elim (given cfg field) [
    | none ↦ raise (meter_definition_exception required_fields_missing)
    | some c ↦ ok c
  ]

  make_attributes : List (String × C) → List String → Result (List (String × Definition B V))
  make_attributes cfg [] = ok []
  make_attributes cfg (name ∷ names) =
      let rest = make_attributes cfg names in
      elim (given cfg name) [
        | none ↦ rest
        | some c ↦ config.make c >>= λ d. rest >>= λ ds. ok ((name, d) ∷ ds)
      ]

  make_metadata : List (String × C) → Result (List (String × Definition B V))
  make_metadata [] = ok []
  make_metadata ((name, c) ∷ rest) = do
    d ← config.make c
    ds ← make_metadata rest
    ok ((name, d) ∷ ds)

  make_user_meta : Option C → Result (Option (Definition B V))
  make_user_meta none = ok none
  make_user_meta (some c) = config.make c >>= λ d. ok (some d)

  -- `name in lookup`, of a string its substrings
  abbrev is_looked_up : Option C → String → Bool
  is_looked_up none name = false
  is_looked_up (some c) name = config.contains c name

  abbrev lookup_of : List (String × C) → List String
  lookup_of cfg = elim (Dict.get cfg "lookup") [ none ↦ [] | some c ↦ config.strings c ]

  abbrev is_sample_type : Option String → Bool
  is_sample_type none = false
  is_sample_type (some t) = contains sample_types t

  check_type : List (String × C) → C → Result (Unit {0})
  check_type cfg type =
      if not (is_looked_up (Dict.get cfg "lookup") "type")
        && not (is_sample_type (config.text type))
      then raise (meter_definition_exception type_invalid)
      else ok tt

  entries_of : Option C → List (String × C)
  entries_of none = []
  entries_of (some c) = config.entries c

  -- `MeterDefinition.__init__`, of the configurations of the two fallbacks
  unfoldable pub meter_definition : C → C → List (String × C) → Result (MeterDefinition B V)
  unfolding make_attributes make_metadata make_user_meta check_type entries_of
  meter_definition fallback_user fallback_project cfg = do
    name ← required cfg "name"
    type ← required cfg "type"
    event_type ← required cfg "event_type"
    unit ← required cfg "unit"
    volume ← required cfg "volume"
    resource ← required cfg "resource_id"
    checked ← check_type cfg type
    user ← config.make fallback_user
    project ← config.make fallback_project
    attributes ← make_attributes cfg sample_attributes
    metadata ← make_metadata (entries_of (Dict.get cfg "metadata"))
    user_meta ← make_user_meta (given cfg "user_metadata")
    ok (record {
      name = config.value name;
      type = config.value type;
      unit = config.value unit;
      event_types = config.strings event_type;
      fallback_user_id = user;
      fallback_project_id = project;
      attributes = attributes;
      metadata_attributes = metadata;
      user_meta = user_meta;
      lookup = lookup_of cfg;
    })

  -- `meter_cfg.get('name')` as a key
  abbrev pub name_of : List (String × C) → Result (Option String)
  name_of cfg = elim (Dict.get cfg "name") [
    | none ↦ ok none
    | some c ↦ map_result some (config.key c)
  ]

  -- One round of the loop over the definitions of a file; `definitions` is the dict so far.
  unfoldable pub load_one :
      C
      → C
      → List (String × MeterDefinition B V)
      → List (String × C)
      → Result (List (String × MeterDefinition B V))
  unfolding meter_definition
  load_one fallback_user fallback_project definitions cfg = name_of cfg >>= λ name.
      if is_known definitions name
      then ok definitions
      else elim (meter_definition fallback_user fallback_project cfg) [
        | ok md ↦ ok (with_name definitions md name)
        | raise e ↦ if is_definition_error e then ok definitions else raise e
      ]

  unfoldable pub load_all :
      C
      → C
      → List (String × MeterDefinition B V)
      → List (List (String × C))
      → Result (List (String × MeterDefinition B V))
  unfolding load_one
  load_all fallback_user fallback_project definitions [] = ok definitions
  load_all fallback_user fallback_project definitions (cfg ∷ cfgs) =
      load_one fallback_user fallback_project definitions cfg >>= λ ds.
      load_all fallback_user fallback_project ds cfgs

  -- `_load_definitions`, of the definitions that the files hold
  unfoldable pub load_files :
      C
      → C
      → List (String × MeterDefinition B V)
      → List (List (List (String × C)))
      → Result (List (String × MeterDefinition B V))
  unfolding load_all
  load_files fallback_user fallback_project definitions [] = ok definitions
  load_files fallback_user fallback_project definitions (file ∷ files) =
      load_all fallback_user fallback_project definitions (reverse file) >>= λ ds.
      load_files fallback_user fallback_project ds files
