-- ===== src/Declarative.antt =====
-- `Definition` of ceilometer/declarative.py: a field of a notification, named by JSONPath. The parser
-- of paths, with its cache, and the plugins are parameters.
use Prim.Native.String.{◌++◌ as concat}
use stx_ceilometer.Prelude.{
  String, Bool, true, false, not, ◌&&◌, ◌||◌, Option, none, some, List, [], ◌∷◌, map, Result, ok,
  raise, ◌>>=◌, if◌then◌else◌, string_eq, filter,
}
use stx_ceilometer.Prelude.{
  type_error, is_some, map_result, definition_exception, field_missing, plugin_unnamed,
  plugin_unknown, path_mistaken, several_values_refused, require, or_else,
}

-- A match of a path in a notification, with its full path; none stands for None.
pub record Match (V : Type 0) : Type 0 where
  pub path : String
  pub value : Option V

pub record Plugin (V : Type 0) : Type 0 where
  pub support_return_all_values : Bool
  pub trait_values : List (String × Option V) → Result (List (Option V))

-- `getter`: a number that stands for itself, or the search of a path in a notification of type B.
pub data Getter (B V : Type 0) : Type 0 where
  constant : V → Getter B V
  search : (B → List (Match V)) → Getter B V

-- `by_name`: the configuration gives the plugin by its name only.
pub record Definition (B V : Type 0) : Type 0 where
  pub getter : Getter B V
  pub plugin : Option (Plugin V)
  pub by_name : Bool

-- `fields`: a path, several, or a number.
pub data FieldsCfg (V : Type 0) : Type 0 where
  path : String → FieldsCfg V
  paths : List String → FieldsCfg V
  number : V → FieldsCfg V

-- `plugin`: its name, or a dict of its name and of parameters of type P.
pub data PluginCfg (P : Type 0) : Type 0 where
  named : String → PluginCfg P
  with_parameters : Option String → Option P → PluginCfg P

pub data DefinitionCfg (P V : Type 0) : Type 0 where
  simple : FieldsCfg V → DefinitionCfg P V
  full : Option (FieldsCfg V) → Option (PluginCfg P) → DefinitionCfg P V

-- What `parse` returns: a value, or the list of all values.
pub data Parsed (V : Type 0) : Type 0 where
  single : Option V → Parsed V
  several : List (Option V) → Parsed V

-- `'|'.join('(%s)' % path for path in fields)`
join_paths : List String → String
join_paths [] = ""
join_paths (p ∷ []) = concat "(" (concat p ")")
join_paths (p ∷ q ∷ ps) = concat "(" (concat p (concat ")|" (join_paths (q ∷ ps))))

abbrev is_named : {P : Type 0} → PluginCfg P → Bool
is_named (named s) = true
is_named (with_parameters name parameters) = false

module _ {B V P : Type 0} (find : String → Result (B → List (Match V)))
    (plugins : String → Option (P → Result (Plugin V))) (no_parameters : P) where
  abbrev getter_of_path : String → Result (Getter B V)
  getter_of_path s = elim (find s) [
    | ok f ↦ ok (search f)
    | raise e ↦ raise (definition_exception path_mistaken)
  ]

  getter_of : FieldsCfg V → Result (Getter B V)
  unfolding join_paths
  getter_of (path s) = getter_of_path s
  getter_of (paths (s ∷ [])) = getter_of_path s
  getter_of (paths ss) = getter_of_path (join_paths ss)
  getter_of (number v) = ok (constant v)

  load_plugin : PluginCfg P → Result (Plugin V)
  load_plugin (named s) =
      require (definition_exception plugin_unknown) (plugins s) >>= λ make. make no_parameters
  load_plugin (with_parameters name parameters) = do
    s ← require (definition_exception plugin_unnamed) name
    make ← require (definition_exception plugin_unknown) (plugins s)
    make (or_else parameters no_parameters)

  -- `Definition.__init__`
  unfoldable pub definition : DefinitionCfg P V → Result (Definition B V)
  unfolding getter_of load_plugin
  definition (simple fields) =
      getter_of fields >>= λ g. ok (record { getter = g; plugin = none; by_name = false })
  definition (full none plugin) = raise (definition_exception field_missing)
  definition (full (some fields) none) =
      getter_of fields >>= λ g. ok (record { getter = g; plugin = none; by_name = false })
  definition (full (some fields) (some p)) = do
    made ← load_plugin p
    g ← getter_of fields
    ok (record { getter = g; plugin = some made; by_name = is_named p })

module _ {V : Type 0} where
  -- The values of the matches, which the plugin may change.
  -- The message of the refusal reads the name of the plugin in a dict.
  found_values : Bool → Option (Plugin V) → Bool → List (Match V) → Result (List (Option V))
  found_values return_all none by_name matches = ok (map (λ m. m.value) matches)
  found_values return_all (some p) by_name matches =
      if return_all && not p.support_return_all_values
      then raise (if by_name then type_error else definition_exception several_values_refused)
      else map_result (filter is_some) (p.trait_values (map (λ m. (m.path, m.value)) matches))

  abbrev first_value : List (Option V) → Option V
  first_value [] = none
  first_value (v ∷ vs) = v

module _ {B V : Type 0} where
  -- `parse`
  unfoldable pub parse : Definition B V → B → Bool → Result (Parsed V)
  unfolding found_values
  parse d body return_all = elim d.getter [
    | constant v ↦ ok (single (some v))
    | search find ↦
        map_result (λ vs. if return_all then several vs else single (first_value vs))
          (found_values return_all d.plugin d.by_name
            (filter (λ m. return_all || is_some m.value) (find body)))
  ]
