-- ===== src/Publisher/Gnocchi/Ending.antt =====
-- ceilometer/publisher/gnocchi.py: what the events that delete a resource do, `publish_events`. The
-- client, the clock and the printing of a query are parameters; json.loads is part of the search.
pub mod Searches
pub mod Order
use stx_ceilometer.Prelude.{
  or_else, ℕ, zero, suc, ◌+◌, ◌-◌, ◌*◌, ◌≤◌, ◌<◌, String, ◌≡◌, ◌≢◌, refl, sym, ap, ◌∙◌, subst, Bool,
  true, false, not, ◌&&◌, ◌||◌, ◌↔◌, ◌⊎◌, inl, inr, Option, none, some, List, [], ◌∷◌, ◌++◌, map,
  append-nil, append_assoc, arith, Result, ok, raise, Exception, ◌>>=◌, ◌>>◌, >>=-eq-ok,
  if◌then◌else◌, Bool-cases, Option-cases, ◌==◌, ==_iff, ==_refl, length, contains, All, IsUnique,
  string_eq, ltb, leb, any, all, filter, is_empty,
}
use stx_ceilometer.Prelude.{key_error}
use stx_ceilometer.Prelude.Dict
use stx_ceilometer.Publisher.Gnocchi.Measures.{update_dict}
use stx_ceilometer.Publisher.Gnocchi.Definition.{
  Field, typed, mistyped, ResourcesDefinition, definition_from_event, event_delete, event_create,
  event_update, Operation,
}

-- `Event`, as far as the publisher reads it: the values of the traits are not None.
pub record Event (V : Type 0) : Type 0 where
  pub event_type : String
  pub traits : List (String × V)

-- `resource.search` and `resource.update` of the client. `text` makes a value of a string.
pub record Client (V W : Type 0) : Type 0 where
  pub search : String → String → W → Result (List (List (String × V))) × W
  pub update : V → V → String → W → Result (Unit {0}) × W
  pub utcnow : W → String
  pub format : String → V → Result String
  pub text : String → V

-- A field that is no string names no trait.
abbrev trait_value : {V : Type 0} → List (String × V) → Field String → Option V
trait_value traits (typed name) = Dict.get traits name
trait_value traits mistyped = none

-- The loop of `event_attributes`
unfoldable pub add_attributes :
    {V : Type 0}
    → List (String × V)
    → List (String × V)
    → List (String × Field String)
    → List (String × V)
add_attributes traits attrs [] = attrs
add_attributes traits attrs ((attr, field) ∷ rest) = elim (trait_value traits field) [
  | none ↦ add_attributes traits attrs rest
  | some v ↦ add_attributes traits (Dict.put attrs attr v) rest
]

module _ {V W : Type 0} (client : Client V W) where
  -- The call of the client in `_set_ended_at`: every exception is logged, KeyError too.
  update_resource : List (String × V) → String → W → W
  update_resource resource ended_at w = elim (Dict.get resource "type") [
    | none ↦ w
    | some type ↦ elim (Dict.get resource "id") [
      | none ↦ w
      | some id ↦ (client.update type id ended_at w).1
    ]
  ]

  -- `_set_ended_at`, which prints the id at its end.
  unfoldable pub set_ended_at : List (String × V) → String → W → Result (Unit {0}) × W
  unfolding update_resource
  set_ended_at resource ended_at w = elim (Dict.get resource "id") [
    | none ↦ (raise key_error, update_resource resource ended_at w)
    | some id ↦ (ok tt, update_resource resource ended_at w)
  ]

  -- `_search_resource`: an error finds nothing.
  abbrev pub search_resource : String → String → W → List (List (String × V)) × W
  search_resource type query w =
      let (result, w') = client.search type query w in
      elim result [ ok found ↦ (found, w') | raise e ↦ ([], w') ]

  -- The searches, which are all done before the first resource is ended.
  unfoldable pub search_all : V → List (String × String) → W → Result (List (List (String × V))) × W
  search_all id [] w = (ok [], w)
  search_all id ((type, query) ∷ rest) w = elim (client.format query id) [
    | raise e ↦ (raise e, w)
    | ok printed ↦
        let (found, w') = search_resource type printed w in
        let (others, w'') = search_all id rest w' in (others >>= (λ more. ok (found ++ more)), w'')
  ]

  unfoldable pub end_all : List (List (String × V)) → String → W → Result (Unit {0}) × W
  unfolding set_ended_at
  end_all [] ended_at w = (ok tt, w)
  end_all (resource ∷ rest) ended_at w =
      let (result, w') = set_ended_at resource ended_at w in
      elim result [ raise e ↦ (raise e, w') | ok u ↦ end_all rest ended_at w' ]

  -- The resources associated with one: its id is read only where some are configured.
  unfoldable pub associated :
      List (String × String) → List (String × V) → W → Result (List (List (String × V))) × W
  unfolding search_all
  associated queries resource w =
      if is_empty queries then (ok [], w) else elim (Dict.get resource "id") [
        | none ↦ (raise key_error, w)
        | some id ↦ search_all id queries w
      ]

module _ {S V W : Type 0} (client : Client V W) where
  -- `event_attributes`
  unfoldable pub event_attributes : ResourcesDefinition S V → Event V → List (String × V)
  unfolding add_attributes
  event_attributes d event =
      add_attributes (update_dict [] event.traits) (("type", client.text d.resource_type) ∷ [])
        (or_else d.cfg.event_attributes [])

  -- `_delete_event`
  unfoldable pub delete_event : ResourcesDefinition S V → Event V → W → Result (Unit {0}) × W
  unfolding event_attributes associated end_all
  delete_event d event w =
      let resource = event_attributes d event in
      let (found, w') = associated client d.cfg.event_associated_resources resource w in
      elim found [
        | raise e ↦ (raise e, w')
        | ok others ↦ end_all client (resource ∷ others) (client.utcnow w) w'
      ]

  -- What `publish_events` does with one event: only a deletion has an effect.
  abbrev pub on_operation :
      Option (ResourcesDefinition S V × Operation) → Event V → W → Result (Unit {0}) × W
  on_operation none event w = (ok tt, w)
  on_operation (some (d, event_delete)) event w = delete_event d event w
  on_operation (some (d, event_create)) event w = (ok tt, w)
  on_operation (some (d, event_update)) event w = (ok tt, w)

  -- `publish_events`
  unfoldable pub publish_events :
      (String → String → Bool)
      → List (ResourcesDefinition S V)
      → List (Event V)
      → W
      → Result (Unit {0}) × W
  unfolding delete_event
  publish_events fnmatch ds [] w = (ok tt, w)
  publish_events fnmatch ds (event ∷ events) w =
      let (result, w') = on_operation (definition_from_event fnmatch ds event.event_type) event w in
      elim result [ raise e ↦ (raise e, w') | ok u ↦ publish_events fnmatch ds events w' ]
