-- ===== src/Publisher/Gnocchi/Definition.antt =====
-- ceilometer/publisher/gnocchi.py: `ResourcesDefinition`. The attributes of a sample are read by
-- jsonpath, so what reads one is part of the configuration: a function to an optional value.
pub mod Deletion
use stx_ceilometer.Prelude.{
  or_else, is_some, truthy, ℕ, zero, suc, ◌+◌, ◌-◌, ◌*◌, ◌≤◌, ◌<◌, String, ◌≡◌, ◌≢◌, refl, sym, ap,
  ◌∙◌, subst, Bool, true, false, not, ◌&&◌, ◌||◌, ◌↔◌, ◌⊎◌, inl, inr, Option, none, some, List, [],
  ◌∷◌, ◌++◌, map, append-nil, append_assoc, arith, Result, ok, raise, Exception, ◌>>=◌, ◌>>◌,
  >>=-eq-ok, if◌then◌else◌, Bool-cases, Option-cases, ◌==◌, ==_iff, ==_refl, length, contains, All,
  IsUnique, string_eq, ltb, leb, any, all, filter, is_empty,
}
use stx_ceilometer.Prelude.{
  resource_definition_exception, field_missing, field_mistyped, key_error, require,
}
use stx_ceilometer.Prelude.Dict

-- A field of the configuration whose type is tested.
pub data Field (A : Type 0) : Type 0 where
  typed : A → Field A
  mistyped : Field A

-- `metrics`: a list of names, or a dict of names with the policy that is given, if any.
pub data Metrics : Type 0 where
  names : List String → Metrics
  policies : List (String × Option String) → Metrics

-- Patterns of event types: one or a list of them.
pub data Patterns : Type 0 where
  single : String → Patterns
  several : List String → Patterns

pub record ResourceCfg (S V : Type 0) : Type 0 where
  pub resource_type : Option (Field String)
  pub metrics : Option (Field Metrics)
  pub archive_policy : Option String
  pub event_create : Option Patterns
  pub event_delete : Option Patterns
  pub event_update : Option Patterns
  pub event_attributes : Option (List (String × Field String))
  pub event_associated_resources : List (String × String)
  pub attributes : List (String × (S → Option V))
  pub ignored : Bool

pub record ResourcesDefinition (S V : Type 0) : Type 0 where
  pub cfg : ResourceCfg S V
  pub resource_type : String
  pub metrics : List (String × String)

pub data Operation : Type 0 where
  event_create event_update event_delete : Operation

-- One round of the loop of `_check_required_and_types`
abbrev pub check_field : {A : Type 0} → Option (Field A) → Result A
check_field none = raise (resource_definition_exception field_missing)
check_field (some mistyped) = raise (resource_definition_exception field_mistyped)
check_field (some (typed a)) = ok a

-- The archive policy of a metric: that of the resource type, which is deprecated, before the
-- override, that before the metric's own, and the default last.
unfoldable pub policy_of : String → Option String → Option String → Option String → String
policy_of default_policy override deprecated own =
    or_else deprecated (or_else (truthy override) (or_else (truthy own) default_policy))

-- `self.cfg['metrics'].items()`, where a list was made a dict
abbrev pub metric_items : Metrics → List (String × Option String)
metric_items (names ms) = map (λ m. (m, none)) ms
metric_items (policies ms) = ms

unfoldable pub add_metrics :
    String
    → Option String
    → Option String
    → List (String × String)
    → List (String × Option String)
    → List (String × String)
unfolding policy_of
add_metrics default_policy override deprecated metrics [] = metrics
add_metrics default_policy override deprecated metrics ((m, own) ∷ ms) =
    add_metrics default_policy override deprecated
      (Dict.put metrics m (policy_of default_policy override deprecated own)) ms

-- `self._ensure_list(self.cfg.get(…, []))`
abbrev pub pattern_list : Option Patterns → List String
pattern_list none = []
pattern_list (some (single p)) = p ∷ []
pattern_list (some (several ps)) = ps

abbrev pub matches_any : (String → String → Bool) → Option Patterns → String → Bool
matches_any fnmatch patterns event_type = any (fnmatch event_type) (pattern_list patterns)

module _ {S V : Type 0} where
  abbrev pub support_events : ResourceCfg S V → Bool
  support_events cfg =
      is_some cfg.event_create || is_some cfg.event_delete || is_some cfg.event_update

  -- `self._check_required_and_types(self.MANDATORY_EVENT_FIELDS, self.cfg['event_attributes'])`
  check_event_fields : ResourceCfg S V → Result String
  check_event_fields cfg = do
    fields ← require key_error cfg.event_attributes
    check_field (Dict.get fields "id")

  abbrev check_events : ResourceCfg S V → Result String
  check_events cfg = if support_events cfg then check_event_fields cfg else ok ""

  -- `ResourcesDefinition.__init__`
  unfoldable pub resources_definition :
      String → Option String → ResourceCfg S V → Result (ResourcesDefinition S V)
  unfolding check_event_fields add_metrics
  resources_definition default_policy override cfg = do
    resource_type ← check_field cfg.resource_type
    metrics ← check_field cfg.metrics
    id_field ← check_events cfg
    ok (record {
      cfg = cfg;
      resource_type = resource_type;
      metrics = add_metrics default_policy override cfg.archive_policy [] (metric_items metrics);
    })

  -- `_load_definitions`: a resource that cannot be loaded is logged and left out.
  unfoldable pub load_definitions :
      String → Option String → List (ResourceCfg S V) → List (ResourcesDefinition S V)
  load_definitions default_policy override [] = []
  load_definitions default_policy override (cfg ∷ cfgs) =
      let later = load_definitions default_policy override cfgs in
      elim (resources_definition default_policy override cfg) [ ok d ↦ d ∷ later | raise e ↦ later ]

  -- `sample_attributes`: the attributes that are not None.
  unfoldable pub sample_attributes : ResourcesDefinition S V → S → List (String × V)
  sample_attributes d s = attributes_of d.cfg.attributes
    where
      attributes_of : List (String × (S → Option V)) → List (String × V)
      attributes_of [] = []
      attributes_of ((name, read) ∷ rest) = elim (read s) [
        | none ↦ attributes_of rest
        | some v ↦ (name, v) ∷ attributes_of rest
      ]

  module _ (fnmatch : String → String → Bool) where
    -- `event_match`: creation is tried first, update last.
    unfoldable pub event_match : ResourcesDefinition S V → String → Option Operation
    event_match d event_type =
        if matches_any fnmatch d.cfg.event_create event_type
        then some event_create
        else if matches_any fnmatch d.cfg.event_delete event_type
        then some event_delete
        else if matches_any fnmatch d.cfg.event_update event_type
        then some event_update
        else none

    -- `_get_resource_definition_from_event`
    unfoldable pub definition_from_event :
        List (ResourcesDefinition S V) → String → Option (ResourcesDefinition S V × Operation)
    unfolding event_match
    definition_from_event [] event_type = none
    definition_from_event (d ∷ ds) event_type = elim (event_match d event_type) [
      | none ↦ definition_from_event ds event_type
      | some operation ↦ some (d, operation)
    ]
