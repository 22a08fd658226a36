-- ===== src/Pipeline/Source/Support.antt =====
-- What `is_supported` of ceilometer/pipeline.py answers for the lists that a source accepts.
use stx_ceilometer.Prelude.{
  String, ◌≡◌, refl, Bool, true, false, not, ◌&&◌, ◌||◌, ◌⊎◌, inl, inr, none, some, List, [], ◌∷◌,
  arith, any, all, contains, ok, raise, Bool-cases, ==_iff, ◌==◌, ◌<◌, pipeline_exception,
  nothing_specified, string_eq,
}
use stx_ceilometer.Prelude.Int.{pos_part}
use stx_ceilometer.Pipeline.Source.{
  rest, check_source_filtering, starts_bang, is_supported, SourceCfg, PipelineSource, event_source,
  sample_source, polling_source, PollingSource, support, support_meter,
}
use stx_ceilometer.Pipeline.Source.Patterns.{
  is_blank, starts_plain, check_source_filtering_iff, any_result-denies, any_result-allows,
}

refused_none : check_source_filtering none ≡ raise (pipeline_exception nothing_specified)
unfolding check_source_filtering
refused_none = refl

event_source-accepted :
    (cfg : SourceCfg) (s : PipelineSource)
    → event_source cfg ≡ ok s
    → check_source_filtering (some s.dataset) ≡ ok tt
unfolding event_source
event_source-accepted cfg s h = ground (arith, refused_none)

sample_source-accepted :
    (cfg : SourceCfg) (s : PipelineSource)
    → sample_source cfg ≡ ok s
    → check_source_filtering (some s.dataset) ≡ ok tt
unfolding sample_source
sample_source-accepted cfg s h = ground arith

polling_source-accepted :
    (cfg : SourceCfg) (s : PollingSource)
    → polling_source cfg ≡ ok s
    → (0 < pos_part s.interval) × (check_source_filtering (some s.meters) ≡ ok tt)
unfolding polling_source
polling_source-accepted cfg s h = ground arith

module _ (fnmatch : String → String → Bool) where
  -- Some excluded pattern of the list matches the name.
  abbrev pub is_denied : List String → String → Bool
  is_denied names name = any (λ x. starts_bang x && fnmatch name (rest x)) names

  abbrev pub is_allowed : List String → String → Bool
  is_allowed names name = any (λ x. not (starts_bang x) && fnmatch name x) names

  is_supported_lem :
      (names : List String) (name : String)
      → any is_blank names ≡ false
      → is_supported fnmatch names name
        ≡ ok (not (is_denied names name) && (is_allowed names name || all starts_bang names))
  unfolding is_supported
  is_supported_lem names name h = rw (any_result-denies fnmatch name names h) (
      rw (any_result-allows fnmatch name names h) (
        let d = is_denied names name in
        let a = is_allowed names name in let n = all starts_bang names in ground arith))

  -- With no excluded pattern every pattern is tried as it stands, and nothing is denied.
  no_bang :
      (names : List String) (name : String)
      → any starts_bang names ≡ false
      → (is_denied names name ≡ false) × (is_allowed names name ≡ any (fnmatch name) names)
  no_bang [] name h = (refl, refl)
  no_bang (x ∷ xs) name h = ground (arith, no_bang xs name)

  plain-not-bang :
      (names : List String) → any starts_plain names ≡ true → all starts_bang names ≡ false
  plain-not-bang [] h = cc
  plain-not-bang (String.[] ∷ xs) h = refl
  plain-not-bang (String.◌∷◌ c s ∷ xs) h = ground (arith, plain-not-bang xs)

  wildcard-allowed :
      (names : List String) (name : String)
      → fnmatch name "*" ≡ true
      → contains names "*" ≡ true
      → is_allowed names name ≡ true
  wildcard-allowed [] name f h = cc
  wildcard-allowed (x ∷ xs) name f h = elim (Bool-cases (x == "*")) [
    | inl e ↦ let is_star = (==_iff x "*").0 e in rw (is_star, f)
    | inr e ↦ ground (arith, wildcard-allowed xs name)
  ]

  -- A source that names an included meter supports exactly the names that one of its patterns
  -- matches, and asking raises nothing.
  pub is_supported-included :
      (names : List String) (name : String)
      → check_source_filtering (some names) ≡ ok tt
      → any starts_plain names ≡ true
      → is_supported fnmatch names name ≡ ok (any (fnmatch name) names)
  is_supported-included names name accepted plain =
      let a = (check_source_filtering_iff names).0 accepted in
      ground (
        arith,
        a.not_mixed,
        is_supported_lem names name a.no_blank,
        no_bang names name,
        plain-not-bang names,
      )

  -- A source with the wildcard, or with excluded names only, supports exactly the names that no
  -- excluded pattern matches, provided that `fnmatch` lets `*` match the name.
  pub is_supported-excluded :
      (names : List String) (name : String)
      → check_source_filtering (some names) ≡ ok tt
      → (contains names "*" ≡ true) ⊎ (all starts_bang names ≡ true)
      → fnmatch name "*" ≡ true
      → is_supported fnmatch names name ≡ ok (not (is_denied names name))
  is_supported-excluded names name accepted (inl w) f =
      let a = (check_source_filtering_iff names).0 accepted in
      ground (arith, is_supported_lem names name a.no_blank, wildcard-allowed names name)
  is_supported-excluded names name accepted (inr w) f =
      let a = (check_source_filtering_iff names).0 accepted in
      ground (arith, is_supported_lem names name a.no_blank)

  is_supported_total :
      (names : List String) (name : String)
      → check_source_filtering (some names) ≡ ok tt
      → (b : Bool) × (is_supported fnmatch names name ≡ ok b)
  is_supported_total names name h =
      (_, is_supported_lem names name ((check_source_filtering_iff names).0 h).no_blank)

  -- An event source or a sample source that was constructed answers for every name: `support_event`
  -- and `support_meter` raise nothing.
  support_total :
      (cfg : SourceCfg) (s : PipelineSource) (name : String)
      → (event_source cfg ≡ ok s) ⊎ (sample_source cfg ≡ ok s)
      → (b : Bool) × (support fnmatch s name ≡ ok b)
  unfolding support
  support_total cfg s name (inl h) =
      is_supported_total s.dataset name (event_source-accepted cfg s h)
  support_total cfg s name (inr h) =
      is_supported_total s.dataset name (sample_source-accepted cfg s h)

  -- A polling source that was constructed has an interval above zero, and answers for every name.
  pub polling_source-usable :
      (cfg : SourceCfg) (s : PollingSource) (name : String)
      → polling_source cfg ≡ ok s
      → (0 < pos_part s.interval) × (b : Bool) × (support_meter fnmatch s name ≡ ok b)
  unfolding support_meter
  polling_source-usable cfg s name h =
      let (positive, accepted) = polling_source-accepted cfg s h in
      let (b, e) = is_supported_total s.meters name accepted in (positive, b, e)
