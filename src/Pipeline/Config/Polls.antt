-- ===== src/Pipeline/Config/Polls.antt =====
-- The sources that `PollingManager` of ceilometer/pipeline.py makes.
use stx_ceilometer.Prelude.{
  ◌<◌, String, ◌≡◌, subst, Bool, some, List, [], ◌∷◌, ok, >>=-eq-ok, All, string_eq,
}
use stx_ceilometer.Prelude.Int.{pos_part}
use stx_ceilometer.Pipeline.Source.{SourceCfg, PollingSource, polling_source, support_meter}
use stx_ceilometer.Pipeline.Source.Support.{polling_source-usable}
use stx_ceilometer.Pipeline.Config.{polling_manager, polling_sources}

-- The source can be polled: its interval is above zero and it answers for every name.
abbrev pub IsUsable : (String → String → Bool) → PollingSource → Type 0
IsUsable fnmatch s =
    (name : String) → (0 < pos_part s.interval) × (b : Bool) × (support_meter fnmatch s name ≡ ok b)

polling_sources-IsUsable :
    (fnmatch : String → String → Bool) (cfgs : List SourceCfg) (sources : List PollingSource)
    → polling_sources cfgs ≡ ok sources
    → All (IsUsable fnmatch) sources
unfolding polling_sources
polling_sources-IsUsable fnmatch [] [] h = tt
polling_sources-IsUsable fnmatch [] (s ∷ ss) h = cc
polling_sources-IsUsable fnmatch (c ∷ cs) sources h =
    let (source, made, rest) = >>=-eq-ok (polling_source c) _ h in
    let (others, later, whole) = >>=-eq-ok (polling_sources cs) _ rest in
    let same : source ∷ others ≡ sources = cc in
    subst (All (IsUsable fnmatch)) same (
      (λ name. polling_source-usable fnmatch c source name made),
      polling_sources-IsUsable fnmatch cs others later,
    )

-- Every source of a polling manager that was constructed has an interval above zero, and its
-- `support_meter` raises nothing, whatever the name.
polling_manager-IsUsable :
    (fnmatch : String → String → Bool) (cfgs : List SourceCfg) (sources : List PollingSource)
    → polling_manager (some cfgs) ≡ ok sources
    → All (IsUsable fnmatch) sources
unfolding polling_manager
polling_manager-IsUsable fnmatch cfgs sources h = polling_sources-IsUsable fnmatch cfgs sources h
