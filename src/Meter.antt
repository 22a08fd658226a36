-- ===== src/Meter.antt =====
-- ceilometer/meter/notifications.py: the samples that the definitions of meters make of notifications.
-- A notification is of type B and values are of type V, of which the operations that the code uses are
-- parameters.
pub mod Loading
pub mod Expansion
use stx_ceilometer.Prelude.{
  ℕ, zero, suc, String, Bool, true, false, not, ◌&&◌, ◌||◌, Option, none, some, List, [], ◌∷◌, ◌++◌,
  map, Result, ok, raise, ◌>>=◌, if◌then◌else◌, ◌==◌, length, contains, string_eq, any, is_empty,
  nat_eq,
}
use stx_ceilometer.Prelude.{require, map_result, type_error}
use stx_ceilometer.Prelude.Dict
use stx_ceilometer.Declarative.{Definition, Parsed, single, several, parse}

abbrev pub sample_attributes : List String
sample_attributes =
    "name" ∷ "type" ∷ "volume" ∷ "unit" ∷ "timestamp" ∷ "user_id" ∷ "project_id" ∷ "resource_id"
    ∷ []

-- What the code does with values of notifications.
pub record Values (B V : Type 0) : Type 0 where
  pub is_true : V → Bool
  pub of_message : B → V
  pub of_dict : List (String × V) → V
  pub reserved : V → List (String × V) → List (String × V)

pub record MeterDefinition (B V : Type 0) : Type 0 where
  pub name : V
  pub type : V
  pub unit : V
  pub event_types : List String
  pub fallback_user_id : Definition B V
  pub fallback_project_id : Definition B V
  pub attributes : List (String × Definition B V)
  pub metadata_attributes : List (String × Definition B V)
  pub user_meta : Option (Definition B V)
  pub lookup : List String

-- The first value, where there is one.
abbrev pub head : {V : Type 0} → List (Option V) → Option V
head [] = none
head (v ∷ vs) = v

abbrev pub tail : {V : Type 0} → List (Option V) → List (Option V)
tail [] = []
tail (v ∷ vs) = vs

-- `itertools.cycle` of one value, cut at the number of samples
abbrev pub cycle : {V : Type 0} → ℕ → Option V → List (Option V)
cycle zero v = []
cycle (suc n) v = v ∷ cycle n v

abbrev pub all_attributes : List String
all_attributes = sample_attributes ++ "message" ∷ "metadata" ∷ []

module _ {V : Type 0} where
  -- The values of an attribute for n samples, or none if they do not fit.
  unfoldable pub column : List String → ℕ → String → Parsed V → Result (Option (List (Option V)))
  column lookup n name (single v) = raise type_error
  column lookup n name (several vs) =
      if length vs == n
      then ok (some vs)
      else if length vs == 1 && not (contains lookup name)
      then ok (some (cycle n (head vs)))
      else ok none

  -- `samples_values`, or none where the loop ends the generator.
  unfoldable pub columns :
      List String
      → ℕ
      → List (String × Parsed V)
      → List String
      → Result (Option (List (String × List (Option V))))
  unfolding column
  columns lookup n sample [] = ok (some [])
  columns lookup n sample (name ∷ names) = do
    vs ← require type_error (Dict.get sample name)
    here ← column lookup n name vs
    elim here [
      | none ↦ ok none
      | some c ↦ columns lookup n sample names >>= λ rest. elim rest [
        | none ↦ ok none
        | some cs ↦ ok (some ((name, c) ∷ cs))
      ]
    ]

  -- `dict((attributes[idx], value) …)` of `zip`
  unfoldable pub zip_samples : ℕ → List (String × List (Option V)) → List (List (String × Parsed V))
  zip_samples zero cs = []
  zip_samples (suc n) cs =
      map (λ c. (c.0, single (head c.1))) cs ∷ zip_samples n (map (λ c. (c.0, tail c.1)) cs)

  abbrev samples_of : ℕ → Option (List (String × List (Option V))) → List (List (String × Parsed V))
  samples_of n none = []
  samples_of n (some cs) = zip_samples n cs

  -- The end of `to_samples` for several samples; a number has no length.
  unfoldable pub expand :
      List String → List (String × Parsed V) → Result (List (List (String × Parsed V)))
  unfolding columns zip_samples
  expand lookup sample = elim (Dict.get sample "name") [
    | some (several names) ↦
        if is_empty names
        then ok []
        else map_result (samples_of (length names))
            (columns lookup (length names) sample all_attributes)
    | _ ↦ raise type_error
  ]

module _ {B V : Type 0} (values : Values B V) where
  abbrev is_true_parsed : Parsed V → Bool
  is_true_parsed (single none) = false
  is_true_parsed (single (some v)) = values.is_true v
  is_true_parsed (several vs) = not (is_empty vs)

  abbrev is_none : Parsed V → Bool
  is_none (single none) = true
  is_none _ = false

  -- The loop over `_metadata_attributes`
  metadata_of : List (String × Definition B V) → B → List (String × V) → Result (List (String × V))
  unfolding parse
  metadata_of [] message metadata = ok metadata
  metadata_of ((name, d) ∷ ds) message metadata = do
    value ← parse d message false
    metadata_of ds message (add value)
    where
      add : Parsed V → List (String × V)
      add (single (some v)) = if values.is_true v then Dict.put metadata name v else metadata
      add _ = metadata

  -- `if self._user_meta`
  reserve : Option (Definition B V) → B → List (String × V) → Result (List (String × V))
  unfolding parse
  reserve none message metadata = ok metadata
  reserve (some d) message metadata = map_result add (parse d message false)
    where
      add : Parsed V → List (String × V)
      add (single (some meta)) =
          if values.is_true meta then values.reserved meta metadata else metadata
      add _ = metadata

  -- What a parsed value does to the attribute of the sample.
  abbrev pub is_set : List String → String → Parsed V → Bool
  is_set lookup name value =
      if is_empty lookup
      then not (is_none value)
      else contains (lookup ++ "name" ∷ []) name || is_true_parsed value

  -- The loop over `SAMPLE_ATTRIBUTES`
  unfoldable pub fill :
      MeterDefinition B V
      → B
      → List String
      → List (String × Parsed V)
      → Result (List (String × Parsed V))
  unfolding parse
  fill d message [] sample = ok sample
  fill d message (name ∷ names) sample = elim (Dict.get d.attributes name) [
    | none ↦ fill d message names sample
    | some parser ↦ parse parser message (not (is_empty d.lookup)) >>= λ value.
        fill d message names
          (if is_set d.lookup name value then Dict.put sample name value else sample)
  ]

  abbrev wrapped : Parsed V → Parsed V
  wrapped (single v) = several (v ∷ [])
  wrapped (several vs) = several vs

  abbrev wrap : List String → List (String × Parsed V) → List (String × Parsed V)
  wrap lookup sample = if is_empty lookup then sample else map (λ e. (e.0, wrapped e.1)) sample

  -- The dict that `to_samples` starts with.
  initial_sample : MeterDefinition B V → B → Result (List (String × Parsed V))
  unfolding metadata_of reserve
  initial_sample d message = do
    user ← parse d.fallback_user_id message false
    project ← parse d.fallback_project_id message false
    plain ← metadata_of d.metadata_attributes message []
    metadata ← reserve d.user_meta message plain
    ok (
        ("name", single (some d.name))
        ∷ ("type", single (some d.type))
        ∷ ("unit", single (some d.unit))
        ∷ ("volume", single none)
        ∷ ("timestamp", single none)
        ∷ ("user_id", user)
        ∷ ("project_id", project)
        ∷ ("resource_id", single none)
        ∷ ("message", single (some (values.of_message message)))
        ∷ ("metadata", single (some (values.of_dict metadata)))
        ∷ [])

  -- `to_samples`
  unfoldable pub to_samples : MeterDefinition B V → B → Result (List (List (String × Parsed V)))
  unfolding initial_sample fill expand
  to_samples d message = do
    initial ← initial_sample d message
    sample ← fill d message sample_attributes (wrap d.lookup initial)
    if is_empty d.lookup then ok (sample ∷ []) else expand d.lookup sample

module _ (fnmatch : String → String → Bool) {B V : Type 0} where
  -- `match_type`
  abbrev pub match_type : MeterDefinition B V → String → Bool
  match_type d name = any (fnmatch name) d.event_types

  -- `process_notification`: what the definitions that match yield, one behind the other.
  unfoldable pub process_notification :
      Values B V
      → List (MeterDefinition B V)
      → String
      → B
      → Result (List (List (String × Parsed V)))
  unfolding to_samples
  process_notification values [] event_type body = ok []
  process_notification values (d ∷ ds) event_type body =
      let rest = process_notification values ds event_type body in
      if match_type d event_type
      then (to_samples values d body >>= λ ss. map_result (λ others. ss ++ others) rest)
      else rest
