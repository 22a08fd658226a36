-- ===== src/Tests/Sources.antt =====
-- Sources, publishers and the pipeline manager at concrete configurations.
use stx_ceilometer.Prelude.{
  ℕ, String, ◌≡◌, refl, Bool, true, false, not, ◌||◌, ◌↔◌, inl, Option, none, some, List, [], ◌∷◌,
  map, Result, ok, raise, if◌then◌else◌, ◌==◌, contains, All, IsUnique, string_eq, any, external,
}
use stx_ceilometer.Prelude.{nat_eq}
use stx_ceilometer.Prelude.Dict
use stx_ceilometer.Prelude.Int.{pos}
use stx_ceilometer.Pipeline.Source.{
  SourceCfg, PipelineSource, PollingSource, integer, check_source_filtering, is_supported,
  sample_source, polling_source,
}
use stx_ceilometer.Pipeline.Source.Patterns.{IsAccepted, check_source_filtering_iff}
use stx_ceilometer.Pipeline.Source.Support.{is_denied, is_supported-included, is_supported-excluded}
use stx_ceilometer.Pipeline.Publishers.{PublisherManager, get, load_publishers}
use stx_ceilometer.Pipeline.Config.{
  polling_manager, Config, PipelineManager, sample, make_sources, pipeline_manager, or_empty,
}
use stx_ceilometer.Pipeline.Config.Wiring.{all_links, name_of, pipeline_manager-wired}

-- A matcher that knows the pattern `*` and literal names.
abbrev glob : String → String → Bool
glob name pattern = pattern == "*" || name == pattern

abbrev included : List String
included = "cpu" ∷ "disk.read" ∷ []

abbrev excluded : List String
excluded = "*" ∷ "!cpu" ∷ []

check_source_filtering_iff_example :
    (check_source_filtering (some included) ≡ ok tt) ↔ IsAccepted included
check_source_filtering_iff_example = check_source_filtering_iff included

included_accepted : check_source_filtering (some included) ≡ ok tt
unfolding check_source_filtering
included_accepted = refl

excluded_accepted : check_source_filtering (some excluded) ≡ ok tt
unfolding check_source_filtering
excluded_accepted = refl

is_supported-included_example : is_supported glob included "cpu" ≡ ok (any (glob "cpu") included)
is_supported-included_example = is_supported-included glob included "cpu" included_accepted refl

is_supported-excluded_example :
    is_supported glob excluded "cpu" ≡ ok (not (is_denied glob excluded "cpu"))
is_supported-excluded_example =
    is_supported-excluded glob excluded "cpu" excluded_accepted (inl refl) refl

abbrev cpu_cfg : SourceCfg
cpu_cfg = record {
  name = some "cpu_source";
  sinks = some ("a" ∷ "b" ∷ []);
  meters = some included;
  events = none;
  interval = some (integer (pos 60));
  resources = none;
  discovery = none;
}

abbrev cpu_source : PipelineSource
cpu_source = record { name = "cpu_source"; sinks = "a" ∷ "b" ∷ []; dataset = included }

cpu_made : sample_source cpu_cfg ≡ ok cpu_source
unfolding sample_source check_source_filtering
cpu_made = refl

abbrev cpu_polling : PollingSource
cpu_polling = record {
  name = "cpu_source";
  meters = included;
  interval = pos 60;
  resources = [];
  discovery = [];
}

polling_made : polling_manager (some (cpu_cfg ∷ [])) ≡ ok (cpu_polling ∷ [])
unfolding polling_manager polling_source check_source_filtering
polling_made = refl

-- A driver that knows every URL but one.
abbrev load : String → Result ℕ
load url = if url == "broken://" then raise external else ok 7

abbrev nothing_loaded : PublisherManager ℕ
nothing_loaded = record { loaded = [] }

loads_once : (get load nothing_loaded "udp://x").0 ≡ ok 7
unfolding get Dict.get
loads_once = refl

abbrev urls : List String
urls = "udp://x" ∷ "broken" ∷ "notifier" ∷ []

loads_two : (load_publishers load nothing_loaded urls).0 ≡ "udp://x" ∷ "notifier://" ∷ []
unfolding load_publishers get Dict.get Dict.put
loads_two = refl

abbrev config : Config ℕ
config = record {
  sources = some (cpu_cfg ∷ []);
  sinks = some (
      record { name = some "a"; transformers = none; publishers = some ("udp://x" ∷ []) }
      ∷ record { name = some "b"; transformers = none; publishers = some urls }
      ∷ []);
}

abbrev plugin : String → Option (ℕ → Result ℕ)
plugin name = none

abbrev manager : PipelineManager ℕ ℕ
manager = record {
  pipelines =
      record { source = cpu_source; sink = "a"; name = "cpu_source:a" }
      ∷ record { source = cpu_source; sink = "b"; name = "cpu_source:b" }
      ∷ [];
  sinks =
      (
        "a",
        record {
          name = "a";
          publishers = "udp://x" ∷ [];
          multi_publish = false;
          transformers = [];
        },
      )
      ∷ (
        "b",
        record {
          name = "b";
          publishers = "udp://x" ∷ "notifier://" ∷ [];
          multi_publish = true;
          transformers = [];
        },
      )
      ∷ [];
  publishers = record { loaded = ("udp://x", 7) ∷ ("notifier://", 7) ∷ [] };
}

manager_made : pipeline_manager load plugin 0 sample config ≡ ok manager
unfolding pipeline_manager sample_source check_source_filtering load_publishers get Dict.get
    Dict.put
manager_made = refl

pipeline_manager-wired_example :
    (sources : List PipelineSource) × (make_sources sample [] (or_empty config.sources)
      ≡ ok sources)
    × (manager.pipelines ≡ all_links sample sources)
    × IsUnique (map name_of manager.pipelines)
    × All (λ p. contains (map (λ entry. entry.0) manager.sinks) p.sink ≡ true) manager.pipelines
pipeline_manager-wired_example =
    pipeline_manager-wired load plugin 0 sample config manager manager_made
