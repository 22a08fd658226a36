-- ===== src/Event/Converter/Matching.antt =====
-- Which definition ceilometer/event/converter.py finds for a notification.
use mathlib.Core.List.{reverse, reverse-append, reverse-cons}
use stx_ceilometer.Prelude.{
  String, ◌≡◌, refl, sym, ap, ◌∙◌, subst, Bool, true, false, not, ◌&&◌, inl, inr, some, List, [],
  ◌∷◌, ◌++◌, append_assoc, arith, Result, ok, ◌>>=◌, >>=-eq-ok, if◌then◌else◌, Bool-cases, ◌==◌,
  ==_iff, contains, All, string_eq, any, is_empty, any-append,
}
use stx_ceilometer.Event.Converter.{
  DefinitionCfg, EventDefinition, EventTypes, types_of, excluded_of, included_of, event_definition,
  definitions_of, catchall_cfg, is_catchall, converter, match_type, find_definition,
}

module _ (fnmatch : String → String → Bool) where
  wildcard-matches :
      (names : List String) (event_type : String)
      → fnmatch event_type "*" ≡ true
      → contains names "*" ≡ true
      → any (fnmatch event_type) names ≡ true
  wildcard-matches [] event_type star h = cc
  wildcard-matches (x ∷ xs) event_type star h = elim (Bool-cases (x == "*")) [
    | inl e ↦ let is_star = (==_iff x "*").0 e in rw (is_star, star) refl
    | inr e ↦ ground (arith, wildcard-matches xs event_type)
  ]

  not_excluded :
      (names : List String) (event_type : String)
      → is_empty names ≡ true
      → any (fnmatch event_type) names ≡ false
  not_excluded [] event_type h = refl
  not_excluded (x ∷ xs) event_type h = cc

module _ (fnmatch : String → String → Bool) {R : Type 0} where
  find_definition-append :
      (ds es : List (EventDefinition R)) (event_type : String) (d : EventDefinition R)
      → find_definition fnmatch ds event_type ≡ some d
      → find_definition fnmatch (ds ++ es) event_type ≡ some d
  unfolding find_definition
  find_definition-append [] es event_type d h = cc
  find_definition-append (x ∷ ds) es event_type d h =
      ground (arith, find_definition-append ds es event_type d)

  -- A definition of the list that matches is enough for the search to find one.
  find_definition-found :
      (ds : List (EventDefinition R)) (event_type : String)
      → any (λ d. match_type fnmatch d event_type) ds ≡ true
      → (d : EventDefinition R) × (find_definition fnmatch ds event_type ≡ some d)
  unfolding find_definition
  find_definition-found [] event_type h = cc
  find_definition-found (x ∷ ds) event_type h =
      elim (Bool-cases (match_type fnmatch x event_type)) [
        | inl matched ↦ (x, rw matched refl)
        | inr failed ↦
            let (d, found) = find_definition-found ds event_type (ground arith) in
            (d, rw failed found)
      ]

  is_catchall-matches :
      (d : EventDefinition R) (event_type : String)
      → fnmatch event_type "*" ≡ true
      → (contains d.included_types "*" && is_empty d.excluded_types) ≡ true
      → match_type fnmatch d event_type ≡ true
  is_catchall-matches d event_type star h =
      let wild = wildcard-matches fnmatch d.included_types event_type star in
      ground (arith, wild, not_excluded fnmatch d.excluded_types event_type)

  catchall-found :
      (ds : List (EventDefinition R)) (event_type : String)
      → fnmatch event_type "*" ≡ true
      → any (λ d. contains d.included_types "*" && is_empty d.excluded_types) ds ≡ true
      → any (λ d. match_type fnmatch d event_type) ds ≡ true
  catchall-found [] event_type star h = cc
  catchall-found (d ∷ ds) event_type star h =
      let own = is_catchall-matches d event_type star in
      let later = catchall-found ds event_type star in
      elim (Bool-cases (contains d.included_types "*" && is_empty d.excluded_types)) [
        | inl here ↦ let matched = own here in rw matched refl
        | inr not_here ↦ let found = later (rw not_here at h) in ground arith
      ]

module _ (fnmatch : String → String → Bool) {Q R : Type 0} (make_trait : String → Q → Result R)
    (default_traits : List (String × Q)) where
  -- A definition that lists exclusions only matches exactly the event types that no exclusion
  -- matches, provided that `fnmatch` lets `*` match the event type.
  event_definition-exclusions :
      (cfg : DefinitionCfg Q) (types : EventTypes) (d : EventDefinition R) (event_type : String)
      → event_definition make_trait default_traits cfg ≡ ok d
      → cfg.event_type ≡ some types
      → is_empty (excluded_of (types_of types)) ≡ false
      → is_empty (included_of (types_of types)) ≡ true
      → fnmatch event_type "*" ≡ true
      → match_type fnmatch d event_type
        ≡ not (any (fnmatch event_type) (excluded_of (types_of types)))
  unfolding event_definition
  event_definition-exclusions cfg types d event_type made is excluded included star = ground arith

  catchall_made :
      (d : EventDefinition R)
      → event_definition make_trait default_traits (catchall_cfg make_trait default_traits) ≡ ok d
      → (contains d.included_types "*" && is_empty d.excluded_types) ≡ true
  unfolding event_definition
  catchall_made d made = ground arith

  total_cases :
      (own ds : List (EventDefinition R)) (event_type : String)
      → fnmatch event_type "*" ≡ true
      → (if not false && not (any (is_catchall make_trait default_traits) own)
          then (do
            d ← event_definition make_trait default_traits (catchall_cfg make_trait default_traits)
            ok (own ++ d ∷ []))
          else ok own)
        ≡ ok ds
      → any (λ d. match_type fnmatch d event_type) ds ≡ true
  total_cases own ds event_type star h =
      elim (Bool-cases (any (is_catchall make_trait default_traits) own)) [
        | inl has ↦
            let same : own ≡ ds = ground arith in
            subst (λ l. any (λ d. match_type fnmatch d event_type) l ≡ true) same
              (catchall-found fnmatch own event_type star has)
        | inr lacks ↦
            let (d, made, whole) =
              >>=-eq-ok
                (event_definition make_trait default_traits
                  (catchall_cfg make_trait default_traits))
                _ (rw lacks at h) in
            let same : own ++ d ∷ [] ≡ ds = ground arith in
            let matched = is_catchall-matches fnmatch d event_type star (catchall_made d made) in
            subst (λ l. any (λ d. match_type fnmatch d event_type) l ≡ true) same
              (any-append (λ d. match_type fnmatch d event_type) own (d ∷ [])
                ∙ rw matched (ground arith))
      ]

  -- A converter that is not told to drop what matches no definition finds a definition for every
  -- event type that `fnmatch` lets `*` match.
  pub converter_total :
      (cfgs : List (DefinitionCfg Q)) (ds : List (EventDefinition R)) (event_type : String)
      → converter make_trait default_traits false cfgs ≡ ok ds
      → fnmatch event_type "*" ≡ true
      → (d : EventDefinition R) × (find_definition fnmatch ds event_type ≡ some d)
  unfolding converter
  converter_total cfgs ds event_type made star =
      let (own, _, next) =
        >>=-eq-ok (definitions_of make_trait default_traits (reverse cfgs)) _ made in
      find_definition-found fnmatch ds event_type (total_cases own ds event_type star next)

  -- No definition that the configuration entry makes matches the event type.
  abbrev pub NeverMatches : String → DefinitionCfg Q → Type 0
  NeverMatches event_type cfg =
      (d : EventDefinition R)
      → event_definition make_trait default_traits cfg ≡ ok d
      → match_type fnmatch d event_type ≡ false

  All-snoc :
      (event_type : String) (cfgs : List (DefinitionCfg Q)) (c : DefinitionCfg Q)
      → All (NeverMatches event_type) cfgs
      → NeverMatches event_type c
      → All (NeverMatches event_type) (cfgs ++ c ∷ [])
  All-snoc event_type [] c h own = (own, tt)
  All-snoc event_type (x ∷ xs) c h own = (h.0, All-snoc event_type xs c h.1 own)

  All-reverse :
      (event_type : String) (cfgs : List (DefinitionCfg Q))
      → All (NeverMatches event_type) cfgs
      → All (NeverMatches event_type) (reverse cfgs)
  All-reverse event_type [] h = tt
  All-reverse event_type (c ∷ cs) h =
      subst (All (NeverMatches event_type)) (sym (reverse-cons c cs))
        (All-snoc event_type (reverse cs) c (All-reverse event_type cs h.1) h.0)

  definitions_of-first :
      (before after : List (DefinitionCfg Q)) (cfg : DefinitionCfg Q) (d : EventDefinition R)
      (ds : List (EventDefinition R)) (event_type : String)
      → definitions_of make_trait default_traits (before ++ cfg ∷ after) ≡ ok ds
      → All (NeverMatches event_type) before
      → event_definition make_trait default_traits cfg ≡ ok d
      → match_type fnmatch d event_type ≡ true
      → find_definition fnmatch ds event_type ≡ some d
  unfolding definitions_of find_definition
  definitions_of-first [] after cfg d ds event_type all_made h made matched =
      let (d', made', next) =
        >>=-eq-ok (event_definition make_trait default_traits cfg) _ all_made in
      let (later, _, whole) = >>=-eq-ok (definitions_of make_trait default_traits after) _ next in
      let same : d' ≡ d = cc in
      let list : d' ∷ later ≡ ds = cc in
      subst (λ l. find_definition fnmatch l event_type ≡ some d) list (rw (same, matched) refl)
  definitions_of-first (c ∷ before) after cfg d ds event_type all_made h made matched =
      let (d', made', next) = >>=-eq-ok (event_definition make_trait default_traits c) _ all_made in
      let (later, rest_made, whole) =
        >>=-eq-ok (definitions_of make_trait default_traits (before ++ cfg ∷ after)) _ next in
      let list : d' ∷ later ≡ ds = cc in
      let failed = h.0 d' made' in
      let found =
        definitions_of-first before after cfg d later event_type rest_made h.1 made matched in
      subst (λ l. find_definition fnmatch l event_type ≡ some d) list (rw failed found)

  -- The last definition of the configuration that matches an event type is the one that is found
  -- for it.
  pub converter-last :
      (drop_unmatched : Bool) (before after : List (DefinitionCfg Q)) (cfg : DefinitionCfg Q)
      (d : EventDefinition R) (ds : List (EventDefinition R)) (event_type : String)
      → converter make_trait default_traits drop_unmatched (before ++ cfg ∷ after) ≡ ok ds
      → All (NeverMatches event_type) after
      → event_definition make_trait default_traits cfg ≡ ok d
      → match_type fnmatch d event_type ≡ true
      → find_definition fnmatch ds event_type ≡ some d
  unfolding converter
  converter-last drop_unmatched before after cfg d ds event_type built h made matched =
      let (own, own_made, next) =
        >>=-eq-ok (definitions_of make_trait default_traits (reverse (before ++ cfg ∷ after))) _
          built in
      let order : reverse (before ++ cfg ∷ after) ≡ reverse after ++ cfg ∷ reverse before =
        reverse-append before (cfg ∷ after)
        ∙ ap (λ l. l ++ reverse before) (reverse-cons cfg after)
        ∙ append_assoc (reverse after) (cfg ∷ []) (reverse before) in
      let found =
        definitions_of-first (reverse after) (reverse before) cfg d own event_type
          (rw order at own_made) (All-reverse event_type after h) made matched in
      elim (Bool-cases
        (not drop_unmatched && not (any (is_catchall make_trait default_traits) own))) [
          | inl adds ↦
              let (extra, _, whole) =
                >>=-eq-ok
                  (event_definition make_trait default_traits
                    (catchall_cfg make_trait default_traits))
                  _ (rw adds at next) in
              let list : own ++ extra ∷ [] ≡ ds = cc in
              subst (λ l. find_definition fnmatch l event_type ≡ some d) list
                (find_definition-append fnmatch own (extra ∷ []) event_type d found)
          | inr keeps ↦
              let plain : Result.ok own ≡ ok ds = rw keeps at next in
              let list : own ≡ ds = cc in
              subst (λ l. find_definition fnmatch l event_type ≡ some d) list found
        ]
