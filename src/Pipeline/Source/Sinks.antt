-- ===== src/Pipeline/Source/Sinks.antt =====
-- `PipelineSource.check_sinks` of ceilometer/pipeline.py.
use stx_ceilometer.Prelude.{◌≡◌, ok, All, contains, true, arith, string_eq, []}
use stx_ceilometer.Pipeline.Source.{all_known, check_sinks, List, PipelineSource, String, ◌∷◌}

all_known_sound :
    (known targets : List String)
    → all_known known targets ≡ ok tt
    → All (λ t. contains known t ≡ true) targets
unfolding all_known
all_known_sound known [] h = tt
all_known_sound known (t ∷ ts) h = ground (arith, all_known_sound known ts)

-- A source that passes the check names known sinks only.
pub check_sinks_sound :
    (source : PipelineSource) (known : List String)
    → check_sinks source known ≡ ok tt
    → All (λ t. contains known t ≡ true) source.sinks
unfolding check_sinks
check_sinks_sound source known h = all_known_sound known source.sinks (ground arith)
