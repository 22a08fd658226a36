-- ===== src/Pipeline/Publishers/Loaded.antt =====
-- What the publisher manager of ceilometer/pipeline.py has loaded.
use stx_ceilometer.Prelude.{
  ◌≡◌, ◌≢◌, String, none, Result, some, ok, List, Option-cases, All, arith, inl, ==_iff, inr,
  ==_refl, string_eq, refl, [],
}
use stx_ceilometer.Prelude.Dict
use stx_ceilometer.Pipeline.Publishers.{
  PublisherManager, with_scheme, store_loaded, get, keep_loaded, load_publishers, raise, ◌∷◌,
}

-- The manager holds a publisher for the URL.
abbrev pub IsLoaded : {P : Type 0} → PublisherManager P → String → Type 0
IsLoaded m url = Dict.get m.loaded url ≢ none

module _ {P : Type 0} (load : String → Result P) where
  -- A URL that is loaded is never loaded again: the manager and the publisher stay.
  get-loaded :
      (m : PublisherManager P) (url : String) (p : P)
      → Dict.get m.loaded url ≡ some p
      → get load m url ≡ (ok p, m)
  unfolding get
  get-loaded m url p h = rw (h, get)

  get-not_loaded :
      (m : PublisherManager P) (url : String)
      → Dict.get m.loaded url ≡ none
      → get load m url ≡ store_loaded load m url (load url)
  unfolding get
  get-not_loaded m url h = rw (h, get)

  store_loaded-keeps :
      (m : PublisherManager P) (url other : String) (p : P) (r : Result P)
      → Dict.get m.loaded url ≡ none
      → Dict.get m.loaded other ≡ some p
      → Dict.get (store_loaded load m url r).1.loaded other ≡ some p
  unfolding store_loaded
  store_loaded-keeps m url other p (raise e) absent h = h
  store_loaded-keeps m url other p (ok q) absent h =
      ground (arith, Dict.get-put m.loaded url other q, ==_iff url other)

  get-keeps :
      (m : PublisherManager P) (url other : String) (p : P)
      → Dict.get m.loaded other ≡ some p
      → Dict.get (get load m url).1.loaded other ≡ some p
  get-keeps m url other p h = elim (Option-cases (Dict.get m.loaded url)) [
    | inl absent ↦
        rw (get-not_loaded m url absent) (store_loaded-keeps m url other p (load url) absent h)
    | inr (q, there) ↦ rw (get-loaded m url q there) h
  ]

  store_loaded-IsLoaded :
      (m : PublisherManager P) (url : String) (p : P) (r : Result P)
      → (store_loaded load m url r).0 ≡ ok p
      → Dict.get (store_loaded load m url r).1.loaded url ≡ some p
  unfolding store_loaded
  store_loaded-IsLoaded m url p (raise e) h = cc
  store_loaded-IsLoaded m url p (ok q) h =
      ground (arith, Dict.get-put m.loaded url url q, ==_refl url)

  get-IsLoaded :
      (m : PublisherManager P) (url : String) (p : P)
      → (get load m url).0 ≡ ok p
      → Dict.get (get load m url).1.loaded url ≡ some p
  get-IsLoaded m url p h = elim (Option-cases (Dict.get m.loaded url)) [
    | inl absent ↦
        let e = get-not_loaded m url absent in
        rw e (store_loaded-IsLoaded m url p (load url) (rw e at h))
    | inr (q, there) ↦ let e = get-loaded m url q there in rw e (cc (there, rw e at h))
  ]

  -- Once a URL's publisher was returned, asking for it again, with another URL asked for in between,
  -- returns that same publisher and leaves the manager as it is.
  get-again :
      (m : PublisherManager P) (url between : String) (p : P)
      → (get load m url).0 ≡ ok p
      → get load (get load (get load m url).1 between).1 url
        ≡ (ok p, (get load (get load m url).1 between).1)
  get-again m url between p h =
      get-loaded (get load (get load m url).1 between).1 url p
        (get-keeps (get load m url).1 between url p (get-IsLoaded m url p h))

  load_publishers-keeps :
      (m : PublisherManager P) (ps : List String) (other : String) (p : P)
      → Dict.get m.loaded other ≡ some p
      → Dict.get (load_publishers load m ps).1.loaded other ≡ some p
  unfolding load_publishers
  load_publishers-keeps m [] other p h = h
  load_publishers-keeps m (q ∷ qs) other p h =
      load_publishers-keeps (get load m (with_scheme q)).1 qs other p
        (get-keeps m (with_scheme q) other p h)

  keep_loaded-All :
      (m : PublisherManager P) (url : String) (r : Result P) (urls : List String)
      → ((p : P) → r ≡ ok p → IsLoaded m url)
      → All (IsLoaded m) urls
      → All (IsLoaded m) (keep_loaded load url r urls)
  unfolding keep_loaded
  keep_loaded-All m url (ok p) urls h k = (h p refl, k)
  keep_loaded-All m url (raise e) urls h k = k

  -- Every publisher that a sink keeps is one that the manager holds.
  load_publishers-IsLoaded :
      (m : PublisherManager P) (ps : List String)
      → All (IsLoaded (load_publishers load m ps).1) (load_publishers load m ps).0
  unfolding load_publishers
  load_publishers-IsLoaded m [] = tt
  load_publishers-IsLoaded m (q ∷ qs) =
      let m' = (get load m (with_scheme q)).1 in
      keep_loaded-All (load_publishers load m' qs).1 (with_scheme q) (get load m (with_scheme q)).0
        (load_publishers load m' qs).0
        (λ p e none_left. cc (
          none_left,
          load_publishers-keeps m' qs (with_scheme q) p (get-IsLoaded m (with_scheme q) p e),
        ))
        (load_publishers-IsLoaded m' qs)
