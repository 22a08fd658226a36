-- ===== src/Agent/Discovery/Cached.antt =====
-- What ceilometer/agent/manager.py asks for once in a polling cycle only.
use stx_ceilometer.Prelude.{
  String, ◌≡◌, ◌≢◌, refl, ap, ◌∙◌, inl, inr, Option, none, some, List, [], ◌∷◌, ◌++◌, Result, ok,
  raise, Exception, Option-cases, All, string_eq,
}
use stx_ceilometer.Prelude.{client_exception}
use stx_ceilometer.Prelude.Dict
use stx_ceilometer.Agent.Discovery.{
  Services, Agent, remember, keystone_of, keystone, discover_url, discover,
}

module _ {K R W : Type 0} (services : Services K R W) where
  -- An answer that `keystone` keeps: a client, or the ClientException.
  abbrev pub IsKept : Result K → Type 0
  IsKept (ok k) = Unit
  IsKept (raise client_exception) = Unit
  IsKept (raise e) = ⊥

  remember-again :
      (result : Result K) (w : W) (agent : Agent K W)
      → IsKept (remember services result w agent).0
      → keystone_of services
          (remember services result w agent).1.client
          (remember services result w agent).1.last_exception
          (remember services result w agent).1
        ≡ ((remember services result w agent).0, (remember services result w agent).1)
  unfolding keystone_of remember
  remember-again (ok k) w agent h = refl
  remember-again (raise client_exception) w agent h = refl
  remember-again (raise e) w agent h = absurd h

  keystone_of-again :
      (client : Option K) (last : Option Exception) (agent : Agent K W)
      → agent.client ≡ client
      → agent.last_exception ≡ last
      → IsKept (keystone_of services client last agent).0
      → keystone services (keystone_of services client last agent).1
        ≡ ((keystone_of services client last agent).0, (keystone_of services client last agent).1)
  unfolding keystone
  keystone_of-again (some k) last agent c l h =
      ap (λ x. keystone_of services x agent.last_exception agent) c
  keystone_of-again none (some e) agent c l h =
      ap (λ x. keystone_of services x agent.last_exception agent) c
      ∙ ap (λ x. keystone_of services none x agent) l
  keystone_of-again none none agent c l h =
      let (result, w) = services.get_client agent.world in remember-again result w agent h

  -- Once `keystone` has returned a client or raised a ClientException, asking again in the same cycle
  -- has the same outcome, and calls and changes nothing.
  keystone-again :
      (agent : Agent K W)
      → IsKept (keystone services agent).0
      → keystone services (keystone services agent).1
        ≡ ((keystone services agent).0, (keystone services agent).1)
  unfolding keystone
  keystone-again agent h = keystone_of-again agent.client agent.last_exception agent refl refl h

  -- The resources that the cache holds for the URLs.
  abbrev pub cached : List (String × List R) → List String → List R
  cached cache [] = []
  cached cache (url ∷ urls) =
      (elim (Dict.get cache url) [ none ↦ [] | some found ↦ found ]) ++ cached cache urls

  -- URLs that are in the discovery cache are answered from it, in order: no plugin, no keystone and no
  -- other service is called, and the cache stays.
  discover-cached :
      (urls : List String) (cache : List (String × List R)) (agent : Agent K W)
      → All (λ url. Dict.get cache url ≢ none) urls
      → discover services urls cache agent ≡ (cached cache urls, cache, agent)
  unfolding discover discover_url
  discover-cached [] cache agent h = refl
  discover-cached (url ∷ urls) cache agent h = elim (Option-cases (Dict.get cache url)) [
    | inl absent ↦ absurd (h.0 absent)
    | inr (found, there) ↦ rw there (rw (discover-cached urls cache agent h.1))
  ]
