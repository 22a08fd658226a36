-- ===== src/Tests/Gnocchi.antt =====
-- The Gnocchi publisher with numbers as values and with logs of calls as worlds.
use stx_ceilometer.Prelude.{
  All, Result, suc, not, ℕ, String, ◌≡◌, ◌≢◌, refl, Bool, true, false, Option, none, some, List, [],
  ◌∷◌, ◌++◌, map, ok, raise, if◌then◌else◌, ◌==◌, string_eq, filter,
}
use stx_ceilometer.Prelude.{key_error}
use stx_ceilometer.Prelude.Int.{ℤ, pos}
use stx_ceilometer.Sample.{Sample}
use stx_ceilometer.Prelude.Dict
use stx_ceilometer.Prelude.Sorting.{sorted}
use stx_ceilometer.Publisher.Gnocchi.Definition.{
  ResourceCfg, ResourcesDefinition, typed, names, single, event_delete, event_match,
  definition_from_event,
}
use stx_ceilometer.Publisher.Gnocchi.Measures.{Measures, ResourceInfo, gather_samples, update_dict}
use stx_ceilometer.Publisher.Gnocchi.Measures.Series.{
  measures_of, is_for, point_of, gather_samples-measures_of,
}
use stx_ceilometer.Publisher.Gnocchi.Posting.{
  Posted, posted, unknown_resources, Created, created, client_error, State, batch_measures,
  if_not_cached,
}
use stx_ceilometer.Publisher.Gnocchi.Posting
use stx_ceilometer.Publisher.Gnocchi.Posting.Creating
use stx_ceilometer.Publisher.Gnocchi.Posting.Retry.{IsPosted, batch_measures-retry}
use stx_ceilometer.Publisher.Gnocchi.Posting.Cached.{if_not_cached-again}
use stx_ceilometer.Publisher.Gnocchi.Ending
use stx_ceilometer.Publisher.Gnocchi.Activity.{Search, project, Filter, is_own, foreign_samples}
use stx_ceilometer.Publisher.Gnocchi.Activity.Own.{foreign_samples-own}
use stx_ceilometer.Publisher.Gnocchi.Ending.{
  Event, event_attributes, add_attributes, publish_events,
}
use stx_ceilometer.Publisher.Gnocchi.Ending.Searches.{
  Act, searched, ended, Recording, found_of, HasId,
}
use stx_ceilometer.Publisher.Gnocchi.Ending.Order.{
  IsOfEvents, publish_events-nameless, publish_events-ends,
}

-- Patterns are event types without wild cards.
abbrev fnmatch : String → String → Bool
fnmatch event_type pattern = event_type == pattern

abbrev instance_cfg : ResourceCfg (Sample ℕ ℕ) String
instance_cfg = record {
  resource_type = some (typed "instance");
  metrics = some (typed (names ("cpu" ∷ [])));
  archive_policy = none;
  event_create = none;
  event_delete = some (single "instance.delete");
  event_update = none;
  event_attributes = some (("id", typed "resource_id") ∷ []);
  event_associated_resources = ("instance_disk", "disks") ∷ [];
  attributes = [];
  ignored = false;
}

abbrev instances : ResourcesDefinition (Sample ℕ ℕ) String
instances = record { cfg = instance_cfg; resource_type = "instance"; metrics = ("cpu", "low") ∷ [] }

abbrev sample : String → String → ℕ → Sample ℕ ℕ
sample name resource_id volume = record {
  name = name;
  type = "gauge";
  unit = "ns";
  volume = volume;
  user_id = none;
  project_id = none;
  resource_id = resource_id;
  timestamp = "t1";
  resource_metadata = 0;
  source = "openstack";
  monotonic_time = none;
}

abbrev samples : List (Sample ℕ ℕ)
samples =
    sample "cpu" "b/1" 3 ∷ sample "net" "b/1" 4 ∷ sample "cpu" "a" 5 ∷ sample "cpu" "b/1" 6 ∷ []

gather_samples-measures_of_example :
    measures_of (gather_samples (("cpu", instances) ∷ []) samples []).measures "b_1" "cpu"
    ≡ map (point_of (("cpu", instances) ∷ [])) (
        filter (is_for (("cpu", instances) ∷ []) "b_1" "cpu") (sorted (λ s. s.resource_id) samples))
gather_samples-measures_of_example =
    gather_samples-measures_of (("cpu", instances) ∷ []) samples [] "b_1" "cpu"

-- The first post names two resources, of which the second cannot be created.
abbrev fate : String → Created
fate rid = if rid == "r2" then client_error else created

abbrev outcome : List (Measures ℕ) → Posted
outcome [] = unknown_resources ("r1" ∷ "r2" ∷ [])
outcome (m ∷ ms) = posted

-- The world lists the posts and the creations.
abbrev Log : Type 0
Log = List (Measures ℕ) × List (String × Created)

abbrev client : Posting.Client ℕ ℕ Log
client = record {
  post = λ m w. (outcome w.0, (w.0 ++ m ∷ [], w.1));
  create = λ rid info w. (fate rid, (w.0, w.1 ++ (rid, fate rid) ∷ []));
  update = λ type rid extra w. (ok tt, w);
  cache_get = λ rid w. (none, w);
  cache_set = λ rid h w. w;
  has_cache = false;
  hash = λ extra. pos 1;
}

abbrev recording : Creating.Recording client
recording = record {
  posts = λ w. w.0;
  fates = λ w. w.1;
  post-posts = λ m w. refl;
  post-fates = λ m w. refl;
  create-posts = λ rid info w. refl;
  create-fates = λ rid info w. refl;
  cache_set-posts = λ rid h w. refl;
  cache_set-fates = λ rid h w. refl;
}

abbrev info : ResourceInfo ℕ
info = record { resource_type = "instance"; user_id = none; project_id = none; resource_extra = [] }

abbrev batch : State ℕ ℕ Log
batch = record {
  measures = ("r1", []) ∷ ("r2", []) ∷ ("r3", []) ∷ [];
  infos = ("r1", info) ∷ ("r2", info) ∷ ("r3", info) ∷ [];
  world = ([], []);
}

batch_measures-retry_example :
    IsPosted client recording
      ("r1" ∷ "r2" ∷ [])
      batch
      (batch_measures client batch).0
      (batch_measures client batch).1
unfolding Dict.get
batch_measures-retry_example =
    batch_measures-retry client recording ("r1" ∷ "r2" ∷ []) batch refl
      ((refl, (refl, tt)), (refl, (refl, tt)), (refl, (refl, tt)))

-- A world that holds the hash of the last update.
abbrev caching : Posting.Client ℕ ℕ (Option ℤ)
caching = record {
  post = λ m w. (posted, w);
  create = λ rid i w. (created, w);
  update = λ type rid extra w. (ok tt, w);
  cache_get = λ rid w. (w, w);
  cache_set = λ rid h w. some h;
  has_cache = true;
  hash = λ extra. pos 7;
}

hash-nonzero : caching.hash (("host", 1) ∷ []) ≢ pos 0
hash-nonzero = λ e. cc

if_not_cached_run : (if_not_cached caching "instance" "r1" (("host", 1) ∷ []) none).0 ≡ ok tt
unfolding if_not_cached
if_not_cached_run = refl

if_not_cached-again_example :
    if_not_cached caching "instance" "r1"
      (("host", 1) ∷ [])
      (if_not_cached caching "instance" "r1" (("host", 1) ∷ []) none).1
    ≡ (ok tt, (if_not_cached caching "instance" "r1" (("host", 1) ∷ []) none).1)
if_not_cached-again_example =
    if_not_cached-again caching "instance" "r1" (("host", 1) ∷ []) (λ v. refl) (λ v h. refl)
      hash-nonzero none refl if_not_cached_run

abbrev disks : List (List (String × String))
disks = (("type", "instance_disk") ∷ ("id", "d1") ∷ []) ∷ []

-- The world lists what the client was asked to do. The second search of a world fails.
abbrev answer : List (Act String) → Result (List (List (String × String)))
answer [] = ok disks
answer (act ∷ acts) = raise key_error

abbrev ending : Ending.Client String (List (Act String))
ending = record {
  search = λ type query w. (answer w, w ++ searched type query (found_of (answer w)) ∷ []);
  update = λ type id at w. (ok tt, w ++ ended type id ∷ []);
  utcnow = λ w. "t1";
  format = λ query id. ok query;
  text = λ s. s;
}

abbrev asked : Recording ending
asked = record {
  acts = λ w. w;
  search-acts = λ type query w. refl;
  update-acts = λ type id at w. refl;
}

answer-HasId : (w : List (Act String)) → All HasId (found_of (answer w))
unfolding Dict.get
answer-HasId [] = (refl, tt)
answer-HasId (act ∷ acts) = tt

abbrev deletion : Event String
deletion = record { event_type = "instance.delete"; traits = ("resource_id", "i1") ∷ [] }

abbrev nameless : Event String
nameless = record { event_type = "instance.delete"; traits = [] }

definition_run :
    definition_from_event fnmatch (instances ∷ []) "instance.delete"
    ≡ some (instances, event_delete)
unfolding definition_from_event
definition_run = refl

nameless_run : Dict.get (event_attributes ending instances nameless) "id" ≡ none
unfolding event_attributes add_attributes update_dict Dict.get Dict.put
nameless_run = refl

publish_events-nameless_example :
    ((publish_events ending fnmatch (instances ∷ []) (nameless ∷ deletion ∷ []) []).0
      ≡ raise key_error)
    × (publish_events ending fnmatch (instances ∷ []) (nameless ∷ deletion ∷ []) []
        ≡ publish_events ending fnmatch (instances ∷ []) (nameless ∷ []) [])
publish_events-nameless_example =
    publish_events-nameless ending fnmatch (instances ∷ []) instances nameless (deletion ∷ []) []
      (definition_run, nameless_run)

publish_events-ends_example :
    ((publish_events ending fnmatch (instances ∷ []) (deletion ∷ []) []).0 ≡ ok tt)
    × ((acts : List (Act String)) × ((publish_events ending fnmatch
            (instances ∷ [])
            (deletion ∷ [])
            []).1
          ≡ acts)
        × IsOfEvents ending fnmatch
            (instances ∷ [])
            asked
            (λ type query w. answer-HasId w)
            (deletion ∷ [])
            acts)
unfolding definition_from_event event_match event_attributes add_attributes update_dict Dict.get
    Dict.put
publish_events-ends_example =
    publish_events-ends ending fnmatch (instances ∷ []) asked (λ type query w. answer-HasId w)
      (deletion ∷ []) [] ((refl, (refl, tt)), tt)

deletion_run :
    (publish_events ending fnmatch (instances ∷ []) (deletion ∷ []) []).1
    ≡ searched "instance_disk" "disks" disks
      ∷ ended "instance" "i1"
      ∷ ended "instance_disk" "d1"
      ∷ []
unfolding publish_events definition_from_event event_match event_attributes add_attributes
    update_dict Dict.get Dict.put
deletion_run = refl

-- The world counts the searches.
abbrev search_project : Option String → ℕ → Search × ℕ
search_project name w = (project "p1", suc w)

abbrev service_filter : Filter ℕ
service_filter = record { filter_project = some "service"; project_id = none; world = 0 }

foreign_samples-own_example :
    ((foreign_samples search_project (("cpu", instances) ∷ []) samples service_filter).0
      ≡ ok (filter (λ s. not (is_own search_project (("cpu", instances) ∷ []) "p1" s)) samples))
    × ((foreign_samples search_project (("cpu", instances) ∷ []) samples service_filter).1.world
        ≡ 1)
foreign_samples-own_example =
    foreign_samples-own search_project (("cpu", instances) ∷ []) (sample "cpu" "b/1" 3)
      (sample "net" "b/1" 4 ∷ sample "cpu" "a" 5 ∷ sample "cpu" "b/1" 6 ∷ []) service_filter
      "service" "p1" refl refl refl refl
