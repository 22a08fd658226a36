-- ===== src/Agent/Polling/Tasks.antt =====
-- ceilometer/agent/manager.py: `setup_polling_tasks`, which makes a polling task for each interval, with
-- `PollingTask.add` and `Resources.setup`.
use stx_ceilometer.Prelude.{
  String, Bool, List, [], ◌∷◌, ◌++◌, map, Result, ok, ◌>>=◌, if◌then◌else◌, string_eq, any,
}
use stx_ceilometer.Prelude.{or_else}
use stx_ceilometer.Prelude.Dict
use stx_ceilometer.Prelude.Int.{ℤ, int_eq}
use stx_ceilometer.Pipeline.Source.{PollingSource, support_meter}
use stx_ceilometer.Agent.Polling.{Pollster, Resources, resources_key}

-- `pollster_matches` and the resources by key
pub record PollingTask (R : Type 0) : Type 0 where
  pub pollster_matches : List (String × List Pollster)
  pub resources : List (String × Resources R)

-- `Resources.__init__` and `PollingTask.__init__`
abbrev new_resources : {R : Type 0} → Resources R
new_resources = record { static = []; discovery = []; blacklist = [] }

abbrev new_task : {R : Type 0} → PollingTask R
new_task = record { pollster_matches = []; resources = [] }

-- `resource` is a static resource of the name in the configuration, and `is_same` the identity of
-- pollsters.
module _ {R : Type 0} (resource : String → R) (is_same : Pollster → Pollster → Bool) where
  -- `Resources.setup`, which leaves the blacklist alone
  abbrev setup : PollingSource → Resources R → Resources R
  setup source r = record r { static = map resource source.resources; discovery = source.discovery }

  -- `set.add`
  abbrev add_pollster : Pollster → List Pollster → List Pollster
  add_pollster pollster ps = if any (is_same pollster) ps then ps else ps ++ pollster ∷ []

  -- `PollingTask.add`
  unfoldable pub add : Pollster → PollingSource → PollingTask R → PollingTask R
  add pollster source task =
      let key = resources_key source.name pollster.name in
      record {
        pollster_matches =
            Dict.put task.pollster_matches source.name
              (add_pollster pollster (or_else (Dict.get task.pollster_matches source.name) []));
        resources =
            Dict.put task.resources key
              (setup source (or_else (Dict.get task.resources key) new_resources));
      }

  -- The inner loop of `setup_polling_tasks`; the tasks stand by interval.
  unfoldable pub setup_source :
      (String → String → Bool)
      → PollingSource
      → List Pollster
      → List (ℤ × PollingTask R)
      → Result (List (ℤ × PollingTask R))
  unfolding add
  setup_source fnmatch source [] tasks = ok tasks
  setup_source fnmatch source (p ∷ ps) tasks = support_meter fnmatch source p.name >>= λ supported.
      setup_source fnmatch source ps (
        if supported
        then Dict.put tasks source.interval
            (add p source (or_else (Dict.get tasks source.interval) new_task))
        else tasks)

  -- `setup_polling_tasks`
  unfoldable pub setup_polling_tasks :
      (String → String → Bool)
      → List PollingSource
      → List Pollster
      → List (ℤ × PollingTask R)
      → Result (List (ℤ × PollingTask R))
  unfolding setup_source
  setup_polling_tasks fnmatch [] extensions tasks = ok tasks
  setup_polling_tasks fnmatch (source ∷ sources) extensions tasks =
      setup_source fnmatch source extensions tasks
      >>= setup_polling_tasks fnmatch sources extensions
