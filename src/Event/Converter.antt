-- ===== src/Event/Converter.antt =====
-- ceilometer/event/converter.py: which definition of an event a notification is converted by. The
-- traits of a definition are made by a parameter, since they rest on jsonpath.
pub mod Matching
use mathlib.Core.List.{reverse}
use stx_ceilometer.Prelude.{
  ℕ, zero, suc, ◌+◌, ◌-◌, ◌*◌, ◌≤◌, ◌<◌, String, ◌≡◌, ◌≢◌, refl, sym, ap, ◌∙◌, subst, Bool, true,
  false, not, ◌&&◌, ◌||◌, ◌↔◌, ◌⊎◌, inl, inr, Option, none, some, List, [], ◌∷◌, ◌++◌, map,
  append-nil, append_assoc, arith, Result, ok, raise, Exception, ◌>>=◌, ◌>>◌, >>=-eq-ok,
  if◌then◌else◌, Bool-cases, Option-cases, ◌==◌, ==_iff, ==_refl, length, contains, All, IsUnique,
  string_eq, ltb, leb, any, all, filter, is_empty,
}
use stx_ceilometer.Prelude.{event_definition_exception, event_type_missing, traits_missing, require}
use stx_ceilometer.Prelude.Dict
use stx_ceilometer.Pipeline.Source.{starts_bang, rest}

-- `event_type` of a definition: a string or a list of strings.
pub data EventTypes : Type 0 where
  text : String → EventTypes
  several : List String → EventTypes

-- A definition of the configuration, with what it says of each trait. A missing key is `none`.
pub record DefinitionCfg (Q : Type 0) : Type 0 where
  pub event_type : Option EventTypes
  pub traits : Option (List (String × Q))

pub record EventDefinition (R : Type 0) : Type 0 where
  pub included_types : List String
  pub excluded_types : List String
  pub traits : List (String × R)

abbrev pub types_of : EventTypes → List String
types_of (text t) = t ∷ []
types_of (several ts) = ts

-- The two lists that the loop over `event_type` fills.
abbrev pub excluded_of : List String → List String
excluded_of ts = map rest (filter starts_bang ts)

abbrev pub included_of : List String → List String
included_of ts = filter (λ t. not (starts_bang t)) ts

-- `if self._excluded_types and not self._included_types`
abbrev pub with_wildcard : List String → List String → List String
with_wildcard excluded included =
    if not (is_empty excluded) && is_empty included then included ++ "*" ∷ [] else included

module _ {Q R : Type 0} (make_trait : String → Q → Result R) where
  -- One of the two loops that fill `self.traits`.
  unfoldable pub add_traits : List (String × R) → List (String × Q) → Result (List (String × R))
  add_traits traits [] = ok traits
  add_traits traits ((name, q) ∷ qs) = do
    trait ← make_trait name q
    add_traits (Dict.put traits name trait) qs

  module _ (default_traits : List (String × Q)) where
    -- `EventDefinition.__init__`
    unfoldable pub event_definition : DefinitionCfg Q → Result (EventDefinition R)
    event_definition cfg = do
      event_type ← require (event_definition_exception event_type_missing) cfg.event_type
      given ← require (event_definition_exception traits_missing) cfg.traits
      let types = types_of event_type
      defaults ← add_traits [] default_traits
      traits ← add_traits defaults given
      ok (record {
        included_types = with_wildcard (excluded_of types) (included_of types);
        excluded_types = excluded_of types;
        traits = traits;
      })

    unfoldable pub definitions_of : List (DefinitionCfg Q) → Result (List (EventDefinition R))
    definitions_of [] = ok []
    definitions_of (c ∷ cs) = do d ← event_definition c; ds ← definitions_of cs; ok (d ∷ ds)

    -- `dict(event_type='*', traits={})`
    abbrev pub catchall_cfg : DefinitionCfg Q
    catchall_cfg = record { event_type = some (text "*"); traits = some [] }

    abbrev pub is_catchall : EventDefinition R → Bool
    is_catchall d = contains d.included_types "*" && is_empty d.excluded_types

    -- `NotificationEventsConverter.__init__`: the definitions, the last one first.
    unfoldable pub converter : Bool → List (DefinitionCfg Q) → Result (List (EventDefinition R))
    unfolding definitions_of
    converter drop_unmatched cfgs = do
      ds ← definitions_of (reverse cfgs)
      let added = do d ← event_definition catchall_cfg; ok (ds ++ d ∷ [])
      if not drop_unmatched && not (any is_catchall ds) then added else ok ds

module _ (fnmatch : String → String → Bool) {R : Type 0} where
  abbrev pub included_type : EventDefinition R → String → Bool
  included_type d event_type = any (fnmatch event_type) d.included_types

  abbrev pub excluded_type : EventDefinition R → String → Bool
  excluded_type d event_type = any (fnmatch event_type) d.excluded_types

  abbrev pub match_type : EventDefinition R → String → Bool
  match_type d event_type = included_type d event_type && not (excluded_type d event_type)

  -- The loop of `NotificationEventsConverter.to_event`: `none` drops the notification.
  unfoldable pub find_definition : List (EventDefinition R) → String → Option (EventDefinition R)
  find_definition [] event_type = none
  find_definition (d ∷ ds) event_type =
      if match_type d event_type then some d else find_definition ds event_type
