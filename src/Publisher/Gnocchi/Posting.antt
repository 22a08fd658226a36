-- ===== src/Publisher/Gnocchi/Posting.antt =====
-- ceilometer/publisher/gnocchi.py: how measures are posted and resources are kept up to date. The
-- Gnocchi client, the cache of hashes, and the hash itself are parameters that act on a world; what
-- another agent does with the cache meanwhile is part of it.

pub mod Creating
pub mod Retry
pub mod Cached
use stx_ceilometer.Prelude.{
  ℕ, zero, suc, ◌+◌, ◌-◌, ◌*◌, ◌≤◌, ◌<◌, String, ◌≡◌, ◌≢◌, refl, sym, ap, ◌∙◌, subst, Bool, true,
  false, not, ◌&&◌, ◌||◌, ◌↔◌, ◌⊎◌, inl, inr, Option, none, some, List, [], ◌∷◌, ◌++◌, map,
  append-nil, append_assoc, arith, Result, ok, raise, Exception, ◌>>=◌, ◌>>◌, >>=-eq-ok,
  if◌then◌else◌, Bool-cases, Option-cases, ◌==◌, ==_iff, ==_refl, length, contains, All, IsUnique,
  string_eq, ltb, leb, any, all, filter, is_empty,
}
use stx_ceilometer.Prelude.{key_error, client_exception}
use stx_ceilometer.Prelude.Dict
use stx_ceilometer.Prelude.Int.{ℤ, pos, int_beq}
use stx_ceilometer.Publisher.Gnocchi.Measures.{Measures, ResourceInfo}

-- How posting a batch ends: a BadRequest names the unknown resources, and anything else is raised.
pub data Posted : Type 0 where
  posted : Posted
  unknown_resources : List String → Posted
  refused : Exception → Posted

pub data Created : Type 0 where
  created already_exists client_error : Created
  broken : Exception → Created

pub record Client (N V W : Type 0) : Type 0 where
  pub post : Measures N → W → Posted × W
  pub create : String → ResourceInfo V → W → Created × W
  pub update : String → String → List (String × V) → W → Result (Unit {0}) × W
  pub cache_get : String → W → Option ℤ × W
  pub cache_set : String → ℤ → W → W
  pub has_cache : Bool
  pub hash : List (String × V) → ℤ

-- `measures`, `resource_infos`, and the world.
pub record State (N V W : Type 0) : Type 0 where
  pub measures : Measures N
  pub infos : List (String × ResourceInfo V)
  pub world : W

-- `del d[k]`
abbrev pub delete_key : {V : Type 0} → List (String × V) → String → Result (List (String × V))
delete_key d k = elim (Dict.get d k) [ none ↦ raise key_error | some v ↦ ok (Dict.remove d k) ]

-- The entries of the resources that the error names; an unknown one raises KeyError.
unfoldable pub extract_resources :
    {V : Type 0}
    → List (String × ResourceInfo V)
    → List String
    → Result (List (String × ResourceInfo V))
extract_resources infos [] = ok []
extract_resources infos (rid ∷ rids) = elim (Dict.get infos rid) [
  | none ↦ raise key_error
  | some info ↦ do
    let rest = extract_resources infos rids
    entries ← rest
    ok ((rid, info) ∷ entries)
]

module _ {N V W : Type 0} (client : Client N V W) where
  -- What follows the creation of a resource: its measures are given up where it failed.
  after_create : String → ResourceInfo V → Created → State N V W → Result (Unit {0}) × State N V W
  after_create rid info created st =
      if client.has_cache && not (is_empty info.resource_extra)
      then (
        ok tt,
        record st { world = client.cache_set rid (client.hash info.resource_extra) st.world },
      )
      else (ok tt, st)
  after_create rid info already_exists st = (ok tt, st)
  after_create rid info client_error st = elim (delete_key st.measures rid) [
    | raise e ↦ (raise e, st)
    | ok measures ↦ elim (delete_key st.infos rid) [
      | raise e ↦ (raise e, record st { measures = measures })
      | ok infos ↦ (ok tt, record st { measures = measures; infos = infos })
    ]
  ]
  after_create rid info (broken e) st = (raise e, st)

  -- The loop over the resources that are missing.
  unfoldable pub create_missing :
      List (String × ResourceInfo V) → State N V W → Result (Unit {0}) × State N V W
  unfolding after_create
  create_missing [] st = (ok tt, st)
  create_missing ((rid, info) ∷ rest) st =
      let (outcome, w) = client.create rid info st.world in
      let (result, st') = after_create rid info outcome (record st { world = w }) in
      elim result [ raise e ↦ (raise e, st') | ok u ↦ create_missing rest st' ]

  -- The second post, whose errors are all raised.
  post_again : State N V W → Result (Unit {0}) × State N V W
  post_again st =
      let (outcome, w) = client.post st.measures st.world in
      elim outcome [
        | posted ↦ (ok tt, record st { world = w })
        | unknown_resources rids ↦ (raise client_exception, record st { world = w })
        | refused e ↦ (raise e, record st { world = w })
      ]

  retry_with :
      Result (List (String × ResourceInfo V)) → State N V W → Result (Unit {0}) × State N V W
  unfolding create_missing post_again
  retry_with (raise e) st = (raise e, st)
  retry_with (ok entries) st =
      let (result, st') = create_missing entries st in
      elim result [ raise e ↦ (raise e, st') | ok u ↦ post_again st' ]

  -- `batch_measures`
  unfoldable pub batch_measures : State N V W → Result (Unit {0}) × State N V W
  unfolding retry_with
  batch_measures st =
      let (outcome, w) = client.post st.measures st.world in
      let st' : State N V W = record st { world = w } in
      elim outcome [
        | posted ↦ (ok tt, st')
        | unknown_resources rids ↦ retry_with (extract_resources st.infos rids) st'
        | refused e ↦ (raise e, st')
      ]

  -- `_resource_cache_diff`: a hash of 0 counts as none.
  abbrev pub differs : Option ℤ → ℤ → Bool
  differs none h = true
  differs (some (pos zero)) h = true
  differs (some cached) h = not (int_beq cached h)

  -- Behind the first test, with the lock: the cache is read again.
  update_locked : String → String → List (String × V) → ℤ → W → Result (Unit {0}) × W
  update_locked type rid extra h w =
      let (cached, w') = client.cache_get rid w in
      elim (differs cached h) [
        | true ↦
            let (result, w'') = client.update type rid extra w' in
            elim result [ ok u ↦ (ok tt, client.cache_set rid h w'') | raise e ↦ (raise e, w'') ]
        | false ↦ (ok tt, w')
      ]

  -- `_if_not_cached`
  unfoldable pub if_not_cached : String → String → List (String × V) → W → Result (Unit {0}) × W
  unfolding update_locked
  if_not_cached type rid extra w =
      let h = client.hash extra in
      let (cached, w') = client.cache_get rid w in
      if not client.has_cache
      then client.update type rid extra w
      else if differs cached h
      then update_locked type rid extra h w'
      else (ok tt, w')

  -- The loop of `publish_samples` over the resources: errors are logged.
  unfoldable pub update_resources : List (String × ResourceInfo V) → W → W
  update_resources [] w = w
  update_resources ((rid, info) ∷ rest) w =
      if is_empty info.resource_extra
      then update_resources rest w
      else update_resources rest (if_not_cached info.resource_type rid info.resource_extra w).1

  -- `publish_samples` behind the gathering: an exception of `batch_measures` is logged.
  unfoldable pub publish_gathered : State N V W → W
  publish_gathered st = let st' = (batch_measures st).1 in update_resources st'.infos st'.world
