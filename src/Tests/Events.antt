-- ===== src/Tests/Events.antt =====
-- Definitions of events at concrete event types.
use stx_ceilometer.Prelude.{
  ℕ, String, ◌≡◌, refl, Bool, false, ◌||◌, some, List, [], ◌∷◌, arith, Result, ok, ◌==◌, string_eq,
}
use stx_ceilometer.Prelude.Dict
use stx_ceilometer.Pipeline.Source.{rest}
use stx_ceilometer.Event.Converter.{
  add_traits, DefinitionCfg, EventDefinition, text, several, event_definition, converter,
  match_type, find_definition,
}
use stx_ceilometer.Event.Converter.Matching.{converter_total, converter-last}

-- A matcher that knows the pattern `*` and literal names.
abbrev glob : String → String → Bool
glob name pattern = pattern == "*" || name == pattern

-- A trait is its number.
abbrev make_trait : String → ℕ → Result ℕ
make_trait name n = ok n

abbrev defaults : List (String × ℕ)
defaults = ("service", 1) ∷ []

abbrev not_image : DefinitionCfg ℕ
not_image = record { event_type = some (several ("!image" ∷ [])); traits = some [] }

abbrev volume : DefinitionCfg ℕ
volume = record { event_type = some (text "volume"); traits = some (("size", 2) ∷ []) }

abbrev image : DefinitionCfg ℕ
image = record { event_type = some (text "image"); traits = some [] }

abbrev defined : (included excluded : List String) (traits : List (String × ℕ)) → EventDefinition ℕ
defined included excluded traits = record {
  included_types = included;
  excluded_types = excluded;
  traits = traits;
}

abbrev made_not_image : EventDefinition ℕ
made_not_image = defined ("*" ∷ []) ("image" ∷ []) defaults

abbrev made_volume : EventDefinition ℕ
made_volume = defined ("volume" ∷ []) [] (("service", 1) ∷ ("size", 2) ∷ [])

abbrev all_made : List (EventDefinition ℕ)
all_made =
    defined ("image" ∷ []) [] defaults
    ∷ made_volume
    ∷ made_not_image
    ∷ defined ("*" ∷ []) [] defaults
    ∷ []

abbrev cfgs : List (DefinitionCfg ℕ)
cfgs = not_image ∷ volume ∷ image ∷ []

converts : converter make_trait defaults false cfgs ≡ ok all_made
unfolding converter event_definition add_traits Dict.put rest
converts = refl

converter_total_example :
    (d : EventDefinition ℕ) × (find_definition glob all_made "network" ≡ some d)
converter_total_example =
    converter_total glob make_trait defaults cfgs all_made "network" converts refl

image_unmatched :
    (d : EventDefinition ℕ)
    → event_definition make_trait defaults image ≡ ok d
    → match_type glob d "volume" ≡ false
unfolding event_definition add_traits Dict.put rest
image_unmatched d h = ground arith

converter-last_example : find_definition glob all_made "volume" ≡ some made_volume
unfolding event_definition add_traits Dict.put rest
converter-last_example =
    converter-last glob make_trait defaults false (not_image ∷ []) (image ∷ []) volume made_volume
      all_made "volume" converts (image_unmatched, tt) refl refl
