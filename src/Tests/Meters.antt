-- ===== src/Tests/Meters.antt =====
-- Samples of a notification with two meters, and two definitions of one meter.
use stx_ceilometer.Prelude.{
  String, ◌≡◌, refl, false, not, ◌⊎◌, Option, none, some, List, [], ◌∷◌, ok, length, contains,
  string_eq, is_empty,
}
use stx_ceilometer.Prelude.Dict
use stx_ceilometer.Declarative.{Parsed, single, several, Definition, search}
use stx_ceilometer.Meter.{MeterDefinition, expand}
use stx_ceilometer.Meter.Expansion.{expand-get, length-expand, value_at}
use stx_ceilometer.Meter.Loading.{Config}

abbrev shared : String → Parsed String
shared s = several (some s ∷ [])

abbrev fetched : List (String × Parsed String)
fetched =
    ("name", several (some "rx" ∷ some "tx" ∷ []))
    ∷ ("type", shared "gauge")
    ∷ ("unit", shared "B")
    ∷ ("volume", several (some "1" ∷ some "2" ∷ []))
    ∷ ("timestamp", several (none ∷ []))
    ∷ ("user_id", shared "u")
    ∷ ("project_id", shared "p")
    ∷ ("resource_id", shared "r")
    ∷ ("message", shared "m")
    ∷ ("metadata", shared "{}")
    ∷ []

abbrev sample_of : String → String → List (String × Parsed String)
sample_of name volume =
    ("name", single (some name))
    ∷ ("type", single (some "gauge"))
    ∷ ("volume", single (some volume))
    ∷ ("unit", single (some "B"))
    ∷ ("timestamp", single none)
    ∷ ("user_id", single (some "u"))
    ∷ ("project_id", single (some "p"))
    ∷ ("resource_id", single (some "r"))
    ∷ ("message", single (some "m"))
    ∷ ("metadata", single (some "{}"))
    ∷ []

abbrev two_samples : List (List (String × Parsed String))
two_samples = sample_of "rx" "1" ∷ sample_of "tx" "2" ∷ []

expanded : expand ("volume" ∷ []) fetched ≡ ok two_samples
unfolding expand Dict.get
expanded = refl

expand-get_example :
    Dict.get (sample_of "tx" "2") "volume" ≡ some (single (value_at 2 1 (some "1" ∷ some "2" ∷ [])))
unfolding Dict.get
expand-get_example =
    expand-get ("volume" ∷ []) fetched (some "rx" ∷ some "tx" ∷ []) (some "1" ∷ some "2" ∷ [])
      two_samples 1 (sample_of "tx" "2") "volume" refl expanded refl refl refl

length-expand_example :
    (two_samples ≡ [])
    ⊎ ((length two_samples ≡ 2) × (length {A = Option String} (some "1" ∷ some "2" ∷ []) ≡ 2))
unfolding Dict.get
length-expand_example =
    length-expand ("volume" ∷ []) fetched (some "rx" ∷ some "tx" ∷ []) (some "1" ∷ some "2" ∷ [])
      two_samples "volume" refl expanded refl refl refl

-- Values of a configuration are lists of strings, and paths find nothing.
abbrev nothing_found : Definition String String
nothing_found = record { getter = search (λ body. []); plugin = none; by_name = false }

abbrev first_string : List String → String
first_string [] = ""
first_string (s ∷ ss) = s

abbrev config : Config String String (List String)
config = record {
  is_true = λ c. not (is_empty c);
  contains = λ c s. contains c s;
  strings = λ c. c;
  text = λ c. some (first_string c);
  key = λ c. ok (first_string c);
  entries = λ c. [];
  value = first_string;
  make = λ c. ok nothing_found;
}

abbrev meter_cfg : String → List (String × List String)
meter_cfg unit =
    ("name", "cpu" ∷ [])
    ∷ ("type", "gauge" ∷ [])
    ∷ ("event_type", "compute.*" ∷ [])
    ∷ ("unit", unit ∷ [])
    ∷ ("volume", "$.payload.cpu" ∷ [])
    ∷ ("resource_id", "$.payload.id" ∷ [])
    ∷ []

abbrev cpu : String → MeterDefinition String String
cpu unit = record {
  name = "cpu";
  type = "gauge";
  unit = unit;
  event_types = "compute.*" ∷ [];
  fallback_user_id = nothing_found;
  fallback_project_id = nothing_found;
  attributes =
      ("name", nothing_found)
      ∷ ("type", nothing_found)
      ∷ ("volume", nothing_found)
      ∷ ("unit", nothing_found)
      ∷ ("resource_id", nothing_found)
      ∷ [];
  metadata_attributes = [];
  user_meta = none;
  lookup = [];
}

abbrev loaded : List (String × MeterDefinition String String)
loaded = ("cpu", cpu "ns") ∷ []
