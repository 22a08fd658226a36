-- ===== src/Tests/Polls.antt =====
-- The polling agent with concrete pollsters, and one discovery plugin.
use stx_ceilometer.Prelude.Int.{pos}
use stx_ceilometer.Pipeline.Source.{PollingSource, support_meter, is_supported}
use stx_ceilometer.Agent.Polling.Tasks.{setup_polling_tasks}
use stx_ceilometer.Prelude.{
  ℕ, suc, String, ◌≡◌, refl, true, none, some, List, [], ◌∷◌, ◌++◌, ok, raise, if◌then◌else◌, ◌==◌,
  IsUnique, string_eq, external, client_exception,
}
use stx_ceilometer.Prelude.{nat_eq}
use stx_ceilometer.Prelude.Dict
use stx_ceilometer.Agent.Discovery.{Services, Agent, discover}
use stx_ceilometer.Agent.Polling.{
  Pollster, Resources, permanent, Outside, poll_and_notify, candidates, poll, poll_one,
}
use stx_ceilometer.Agent.Polling.Once.{poll_and_notify-IsUnique}

-- The world records, for each name, the resources that were asked for.
abbrev Record : Type 0
Record = String → List ℕ

-- Resource 3 fails for good; the notifier fails every time.
abbrev outside : Outside ℕ ℕ Record
outside = record {
  discover = λ urls w. (2 ∷ 3 ∷ 2 ∷ [], w);
  static_part = λ resources. resources;
  get_samples = λ p rs w. (
    record { samples = rs; ending = permanent (3 ∷ []) },
    λ n. if p.name == n then w n ++ rs else w n,
  );
  send_notification = λ ms w. (raise external, w);
}

abbrev cpu : Pollster
cpu = record { name = "cpu"; default_discovery = some "local_instances" }

abbrev matches : List (String × List Pollster)
matches = ("fast", cpu ∷ []) ∷ ("slow", cpu ∷ []) ∷ []

abbrev known : List (String × Resources ℕ)
known =
    ("slow-cpu", record { static = 1 ∷ 2 ∷ []; discovery = "all" ∷ []; blacklist = 4 ∷ [] }) ∷ []

abbrev nothing : Record
nothing n = []

poll_and_notify-IsUnique_example :
    IsUnique ((poll_and_notify outside true matches known nothing).1 "cpu")
poll_and_notify-IsUnique_example =
    poll_and_notify-IsUnique outside true (λ n w. w n) (λ urls w n. refl) (λ ms w n. refl)
      (λ p rs w n. refl) matches known nothing (λ n. refl) "cpu"

polled_once : (poll_and_notify outside true matches known nothing).1 "cpu" ≡ 2 ∷ 3 ∷ 1 ∷ []
unfolding poll_and_notify candidates poll poll_one Dict.get Dict.put
polled_once = refl

-- The world counts the calls.
abbrev services : Services ℕ ℕ ℕ
services = record {
  parse = λ url. (url, none);
  get_client = λ w. (raise client_exception, suc w);
  has_endpoints = λ k service w. (ok true, suc w);
  run_discoverer = λ d param w. (ok (7 ∷ []), suc w);
  belongs_to_self = none;
}

abbrev agent : Agent ℕ ℕ
agent = record {
  group_prefix = "compute";
  discoveries = record { name = "local"; group_id = "local"; keystone_required = none } ∷ [];
  client = none;
  last_exception = none;
  world = 0;
}

discovers_once :
    discover services ("local" ∷ "gone" ∷ "local" ∷ []) [] agent
    ≡ (7 ∷ 7 ∷ [], ("local", 7 ∷ []) ∷ [], record agent { world = 1 })
unfolding discover Dict.get Dict.put
discovers_once = refl

-- Two sources of one interval, of which the second takes no pollster.
abbrev source : String → String → PollingSource
source name meter = record {
  name = name;
  meters = meter ∷ [];
  interval = pos 60;
  resources = "r" ∷ [];
  discovery = [];
}

tasks_run :
    setup_polling_tasks {R = ℕ}
      (λ name. 7)
      (λ p q. p.name == q.name)
      (λ name pattern. name == pattern)
      (source "fast" "cpu" ∷ source "slow" "disk" ∷ [])
      (cpu ∷ [])
      []
    ≡ ok (
        (
          pos 60,
          record {
            pollster_matches = ("fast", cpu ∷ []) ∷ [];
            resources =
                ("fast-cpu", record { static = 7 ∷ []; discovery = []; blacklist = [] }) ∷ [];
          },
        )
        ∷ [])
unfolding setup_polling_tasks support_meter is_supported Dict.get Dict.put
tasks_run = refl
