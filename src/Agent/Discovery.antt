-- ===== src/Agent/Discovery.antt =====
-- ceilometer/agent/manager.py: `AgentManager.keystone`, `_discoverer`, `discover`, `Resources.get`. The
-- plugins that discover, keystone and the hash rings of tooz are parameters.
pub mod Cached
use Prim.Native.String.{◌++◌ as concat}
use stx_ceilometer.Prelude.{
  client_exception, ℕ, zero, suc, ◌+◌, ◌-◌, ◌*◌, ◌≤◌, ◌<◌, String, ◌≡◌, ◌≢◌, refl, sym, ap, ◌∙◌,
  subst, Bool, true, false, not, ◌&&◌, ◌||◌, ◌↔◌, ◌⊎◌, inl, inr, Option, none, some, List, [], ◌∷◌,
  ◌++◌, map, append-nil, append_assoc, arith, Result, ok, raise, Exception, ◌>>=◌, ◌>>◌, >>=-eq-ok,
  if◌then◌else◌, Bool-cases, Option-cases, ◌==◌, ==_iff, ==_refl, length, contains, All, IsUnique,
  string_eq, ltb, leb, any, all, filter, is_empty, external,
}
use stx_ceilometer.Prelude.Dict

-- A discovery plugin; `keystone_required` is KEYSTONE_REQUIRED_FOR_SERVICE.
pub record Discoverer : Type 0 where
  pub name : String
  pub group_id : String
  pub keystone_required : Option String

-- What the plugins and the services around the agent do. `parse` is `_parse_discoverer`, which splits
-- a URL by urlparse; `has_endpoints` is the look-up of a service type in the catalog of the keystone
-- client; `belongs_to_self` is there if the agent has a coordinator.
pub record Services (K R W : Type 0) : Type 0 where
  pub parse : String → String × Option String
  pub get_client : W → Result K × W
  pub has_endpoints : K → String → W → Result Bool × W
  pub run_discoverer : Discoverer → Option String → W → Result (List R) × W
  pub belongs_to_self : Option (String → R → Bool)

-- `_keystone` and `_keystone_last_exception`, beside the world.
pub record Agent (K W : Type 0) : Type 0 where
  pub group_prefix : String
  pub discoveries : List Discoverer
  pub client : Option K
  pub last_exception : Option Exception
  pub world : W

-- `construct_group_id`
unfoldable pub construct_group_id : {K W : Type 0} → Agent K W → String → String
construct_group_id agent id = concat agent.group_prefix (concat "-" id)

-- `_discoverer`: the first plugin with the name
unfoldable pub find_discoverer : List Discoverer → String → Option Discoverer
find_discoverer [] name = none
find_discoverer (d ∷ ds) name = if d.name == name then some d else find_discoverer ds name

module _ {K R W : Type 0} (services : Services K R W) where
  -- The `try` of `keystone`: of the exceptions only a ClientException is caught and kept.
  remember : Result K → W → Agent K W → Result K × Agent K W
  remember (ok k) w agent =
      (ok k, record agent { client = some k; last_exception = none; world = w })
  remember (raise client_exception) w agent = (
    raise client_exception,
    record agent { client = none; last_exception = some client_exception; world = w },
  )
  remember (raise e) w agent = (raise e, record agent { world = w })

  -- The property `keystone`, by the two fields.
  keystone_of : Option K → Option Exception → Agent K W → Result K × Agent K W
  unfolding remember
  keystone_of (some k) last agent = (ok k, agent)
  keystone_of none (some e) agent = (raise e, agent)
  keystone_of none none agent =
      let (result, w) = services.get_client agent.world in remember result w agent

  unfoldable pub keystone : Agent K W → Result K × Agent K W
  unfolding keystone_of
  keystone agent = keystone_of agent.client agent.last_exception agent

  ask_catalog : Result K → String → Agent K W → Result Bool × Agent K W
  ask_catalog (raise e) service agent = (raise e, agent)
  ask_catalog (ok k) service agent =
      let (result, w) = services.has_endpoints k service agent.world in
      (result, record agent { world = w })

  -- Whether the service that the plugin wants is registered.
  is_registered : Option String → Agent K W → Result Bool × Agent K W
  unfolding ask_catalog keystone
  is_registered none agent = (ok true, agent)
  is_registered (some service) agent =
      let (result, agent') = keystone agent in ask_catalog result service agent'

  -- `[v for v in discovered if …belongs_to_self(…)]`
  abbrev pub own_part : Option (String → R → Bool) → String → List R → List R
  own_part none group found = found
  own_part (some belongs) group found = filter (belongs group) found

  run_if : Result Bool → Discoverer → Option String → Agent K W → Result (List R) × Agent K W
  run_if (raise e) d param agent = (raise e, agent)
  run_if (ok false) d param agent = (raise external, agent)
  run_if (ok true) d param agent =
      let (result, w) = services.run_discoverer d param agent.world in
      (result, record agent { world = w })

  -- The `try` of `discover` for one plugin. An exception, and a service that is not registered, skip
  -- the URL; both are `raise` here.
  run_one : Discoverer → Option String → Agent K W → Result (List R) × Agent K W
  unfolding is_registered run_if
  run_one d param agent =
      let (registered, agent') = is_registered d.keystone_required agent in
      run_if registered d param agent'

  abbrev pub Cache : Type 0
  Cache = List (String × List R)

  -- What the URL adds to the resources, and the cache behind it.
  keep_found :
      String → Discoverer → Result (List R) × Agent K W → Cache → List R × Cache × Agent K W
  keep_found url d (raise e, agent) cache = ([], cache, agent)
  keep_found url d (ok found, agent) cache =
      let own = own_part services.belongs_to_self (construct_group_id agent d.group_id) found in
      (own, Dict.put cache url own, agent)

  run_named :
      Option Discoverer → String → Option String → Cache → Agent K W → List R × Cache × Agent K W
  unfolding keep_found run_one
  run_named none url param cache agent = ([], cache, agent)
  run_named (some d) url param cache agent = keep_found url d (run_one d param agent) cache

  discover_url : Option (List R) → String → Cache → Agent K W → List R × Cache × Agent K W
  unfolding run_named find_discoverer
  discover_url (some found) url cache agent = (found, cache, agent)
  discover_url none url cache agent =
      let (name, param) = services.parse url in
      run_named (find_discoverer agent.discoveries name) url param cache agent

  -- `discover(discovery, discovery_cache)`; every caller passes a cache.
  unfoldable pub discover : List String → Cache → Agent K W → List R × Cache × Agent K W
  unfolding discover_url
  discover [] cache agent = ([], cache, agent)
  discover (url ∷ urls) cache agent =
      let (found, cache', agent') = discover_url (Dict.get cache url) url cache agent in
      let (more, cache'', agent'') = discover urls cache' agent' in
      (found ++ more, cache'', agent'')
