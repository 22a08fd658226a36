-- ===== src/Agent/Polling.antt =====
-- ceilometer/agent/manager.py: `Resources` and `PollingTask.poll_and_notify`. The pollsters and the
-- notifier are parameters. Sets and dicts are lists in the order of insertion.
pub mod Dedupe
pub mod Once
pub mod Tasks
use Prim.Native.String.{◌++◌ as concat}
use stx_ceilometer.Prelude.{
  ℕ, zero, suc, ◌+◌, ◌-◌, ◌*◌, ◌≤◌, ◌<◌, String, ◌≡◌, ◌≢◌, refl, sym, ap, ◌∙◌, subst, Bool, true,
  false, not, ◌&&◌, ◌||◌, ◌↔◌, ◌⊎◌, inl, inr, Option, none, some, List, [], ◌∷◌, ◌++◌, map,
  append-nil, append_assoc, arith, Result, ok, raise, Exception, ◌>>=◌, ◌>>◌, >>=-eq-ok,
  if◌then◌else◌, Bool-cases, Option-cases, ◌==◌, ==_iff, ==_refl, length, contains, All, IsUnique,
  string_eq, ltb, leb, any, all, filter, is_empty,
}
use stx_ceilometer.Prelude.{Eq}
use stx_ceilometer.Prelude.Dict
use stx_ceilometer.Prelude.Int.{ℤ}
use stx_ceilometer.Pipeline.Source.{PollingSource, support_meter}

pub record Pollster : Type 0 where
  pub name : String
  pub default_discovery : Option String

-- `Resources`: the static resources, the URLs to discover, and the resources never to poll again.
pub record Resources (R : Type 0) : Type 0 where
  pub static : List R
  pub discovery : List String
  pub blacklist : List R

-- How the generator of `get_samples` ends, behind the samples that it has yielded: at its end, with
-- PollsterPermanentError and its resources, or with another exception.
pub data Ending (R : Type 0) : Type 0 where
  finished : Ending R
  permanent : List R → Ending R
  failed : Ending R

pub record Polled (R M : Type 0) : Type 0 where
  pub samples : List M
  pub ending : Ending R

-- `discover` is `AgentManager.discover` with the cycle's cache in the world, and `static_part` what
-- `Resources.get` keeps of the static resources. A message is a sample with its time stamp set.
pub record Outside (R M W : Type 0) : Type 0 where
  pub discover : List String → W → List R × W
  pub static_part : List R → List R
  pub get_samples : Pollster → List R → W → Polled R M × W
  pub send_notification : List M → W → Result (Unit {0}) × W

-- `Resources.key`
abbrev pub resources_key : String → String → String
resources_key source_name pollster_name = concat source_name (concat "-" pollster_name)

module _ {R : Type 0} ⦃e : Eq R⦄ where
  -- The loop over `candidate_res`: the resources to poll, and `history` behind it.
  unfoldable pub select : List R → List R → List R → List R × List R
  select black history [] = ([], history)
  select black history (x ∷ xs) =
      let (polling, history') =
        select black (if contains history x then history else history ++ x ∷ []) xs in
      (if contains history x || contains black x then polling else x ∷ polling, history')

-- `poll_history`, the resources by key, and the world.
pub record Cycle (R W : Type 0) : Type 0 where
  pub history : List (String × List R)
  pub resources : List (String × Resources R)
  pub world : W

module _ {R M W : Type 0} ⦃e : Eq R⦄ (outside : Outside R M W) (batch : Bool) where
  -- The loop over the samples without batches: a notification that fails ends it.
  send_each : List M → Ending R → W → Ending R × W
  send_each [] ending w = (ending, w)
  send_each (m ∷ ms) ending w =
      let (result, w') = outside.send_notification (m ∷ []) w in
      let rest = send_each ms ending w' in elim result [ ok _ ↦ rest | raise x ↦ (failed, w') ]

  sent : Result (Unit {0}) × W → Ending R × W
  sent (ok _, w) = (finished, w)
  sent (raise x, w) = (failed, w)

  -- A batch is sent only behind the end of the generator, and only if it is not empty.
  send_batch : List M → Ending R → W → Ending R × W
  unfolding sent
  send_batch [] ending w = (ending, w)
  send_batch (m ∷ ms) finished w = sent (outside.send_notification (m ∷ ms) w)
  send_batch (m ∷ ms) ending w = (ending, w)

  -- The `try` around `get_samples`: how it ended.
  unfoldable pub poll : Pollster → List R → W → Ending R × W
  unfolding send_each send_batch
  poll pollster resources w =
      let (polled, w') = outside.get_samples pollster resources w in
      if batch
      then send_batch polled.samples polled.ending w'
      else send_each polled.samples polled.ending w'

  -- `Resources.get`
  unfoldable pub get_resources : Resources R → W → List R × W
  get_resources r w =
      let (found, w') = if is_empty r.discovery then ([], w) else outside.discover r.discovery w in
      (if is_empty r.static then found else outside.static_part r.static ++ found, w')

  default_resources : Option String → W → List R × W
  default_resources none w = ([], w)
  default_resources (some url) w = outside.discover (url ∷ []) w

  -- `candidate_res`
  unfoldable pub candidates : Resources R → Pollster → W → List R × W
  unfolding get_resources default_resources
  candidates r pollster w =
      let (found, w') = get_resources r w in
      if is_empty found then default_resources pollster.default_discovery w' else (found, w')

  abbrev pub no_resources : Resources R
  no_resources = record { static = []; discovery = []; blacklist = [] }

  abbrev pub or_default : {A : Type 0} → A → Option A → A
  or_default a none = a
  or_default a (some x) = x

  abbrev pub history_of : Cycle R W → String → List R
  history_of c name = or_default [] (Dict.get c.history name)

  abbrev pub resources_of : Cycle R W → String → Resources R
  resources_of c key = or_default no_resources (Dict.get c.resources key)

  -- The handlers of the `try`: a permanent error extends the blacklist.
  settle : String → Ending R × W → Cycle R W → Cycle R W
  settle key (permanent bad, w) c =
      let r = resources_of c key in
      let banned : Resources R = record r { blacklist = r.blacklist ++ bad } in
      record c { resources = Dict.put c.resources key banned; world = w }
  settle key (ending, w) c = record c { world = w }

  -- The body of the inner loop, for one source and one pollster.
  unfoldable pub poll_one : String → Pollster → Cycle R W → Cycle R W
  unfolding settle select
  poll_one source_name pollster c =
      let key = resources_key source_name pollster.name in
      let r = resources_of c key in
      let (found, w) = candidates r pollster c.world in
      let (polling, history) = select r.blacklist (history_of c pollster.name) found in
      let selected : Cycle R W = record c {
        history = Dict.put c.history pollster.name history;
        world = w;
      } in
      if is_empty polling then selected else settle key (poll pollster polling w) selected

  poll_source : String → List Pollster → Cycle R W → Cycle R W
  poll_source source_name [] c = c
  poll_source source_name (p ∷ ps) c = poll_source source_name ps (poll_one source_name p c)

  poll_sources : List (String × List Pollster) → Cycle R W → Cycle R W
  unfolding poll_source
  poll_sources [] c = c
  poll_sources ((source_name, ps) ∷ rest) c = poll_sources rest (poll_source source_name ps c)

  -- `poll_and_notify`: the resources by key stay from cycle to cycle, the history does not.
  unfoldable pub poll_and_notify :
      List (String × List Pollster)
      → List (String × Resources R)
      → W
      → List (String × Resources R) × W
  unfolding poll_sources
  poll_and_notify matches resources w =
      let c = poll_sources matches (record { history = []; resources = resources; world = w }) in
      (c.resources, c.world)
