-- ===== src/Pipeline/Config.antt =====
-- ceilometer/pipeline.py: `Sink.__init__`, `_setup_transformers`, `Pipeline.__str__` and
-- `PipelineManager.__init__`. The loaded file is a parameter; so are the drivers of publishers and
-- the plugins of transformers.
pub mod Wiring
pub mod Polls
use Prim.Native.String.{◌++◌ as concat}
use stx_ceilometer.Prelude.{
  ℕ, String, Bool, true, false, Option, none, some, List, [], ◌∷◌, ◌++◌, map, Result, ok, raise,
  ◌>>=◌, ◌>>◌, pipeline_exception, key_error, name_missing, no_publisher, no_transformer_named,
  sources_and_sinks_required, duplicated_source, duplicated_sink, duplicate_pipeline, length,
  is_empty, contains, require, ltb, if◌then◌else◌, ◌==◌, string_eq, option_eq, polling_exception,
  sources_required,
}
use stx_ceilometer.Prelude.Dict
use stx_ceilometer.Pipeline.Source.{
  SourceCfg, PipelineSource, event_source, sample_source, check_sinks, refuse_if, PollingSource,
  polling_source,
}
use stx_ceilometer.Pipeline.Sink.{Sink}
use stx_ceilometer.Pipeline.Publishers.{PublisherManager, load_publishers}

-- A transformer's section: the outer option is a missing key, the inner one a null.
pub record TransformerCfg (Q : Type 0) : Type 0 where
  pub name : Option String
  pub parameters : Option (Option Q)

-- A sink's section; a key that is not there, or is null, is `none`.
pub record SinkCfg (Q : Type 0) : Type 0 where
  pub name : Option String
  pub transformers : Option (List (TransformerCfg Q))
  pub publishers : Option (List String)

pub record Config (Q : Type 0) : Type 0 where
  pub sources : Option (List SourceCfg)
  pub sinks : Option (List (SinkCfg Q))

-- `cfg.get(key) or []`
abbrev pub or_empty : {A : Type 0} → Option (List A) → List A
or_empty none = []
or_empty (some xs) = xs

-- SAMPLE_TYPE and EVENT_TYPE
pub data PipelineType : Type 0 where
  sample event : PipelineType

pub record Pipeline : Type 0 where
  pub source : PipelineSource
  pub sink : String
  pub name : String

-- `str(self)` of a SamplePipeline and of an EventPipeline
unfoldable pub pipeline_name : PipelineType → String → String → String
pipeline_name sample source sink =
    if source == sink then source else concat source (concat ":" sink)
pipeline_name event source sink =
    concat "event:" (if source == sink then source else concat source (concat ":" sink))

unfoldable pub make_source : PipelineType → SourceCfg → Result PipelineSource
make_source sample = sample_source
make_source event = event_source

unfoldable pub make_pipeline : PipelineType → PipelineSource → String → Pipeline
unfolding pipeline_name
make_pipeline kind source sink = record {
  source = source;
  sink = sink;
  name = pipeline_name kind source.name sink;
}

-- `self.pipelines`, the dict of sinks and the publishers that they share.
pub record PipelineManager (P T : Type 0) : Type 0 where
  pub pipelines : List Pipeline
  pub sinks : List (String × Sink T)
  pub publishers : PublisherManager P

-- The loop over `cfg.get('sources')`, with `unique_names`.
unfoldable pub make_sources :
    PipelineType → List (Option String) → List SourceCfg → Result (List PipelineSource)
unfolding make_source
make_sources kind names [] = ok []
make_sources kind names (s ∷ ss) = do
  refuse_if duplicated_source (contains names s.name)
  source ← make_source kind s
  sources ← make_sources kind (names ++ s.name ∷ []) ss
  ok (source ∷ sources)

-- The loop over `source.sinks`, with `unique_names` and the pipelines.
unfoldable pub link_targets :
    PipelineType
    → PipelineSource
    → List String
    → List String
    → List Pipeline
    → Result (List String × List Pipeline)
unfolding make_pipeline
link_targets kind source [] names pipes = ok (names, pipes)
link_targets kind source (target ∷ targets) names pipes = do
  let pipe = make_pipeline kind source target
  refuse_if duplicate_pipeline (contains names pipe.name)
  link_targets kind source targets (names ++ pipe.name ∷ []) (pipes ++ pipe ∷ [])

-- The loop over the sources. After `check_sinks`, `sinks[target]` finds every target.
unfoldable pub link_sources :
    PipelineType
    → List String
    → List PipelineSource
    → List String
    → List Pipeline
    → Result (List String × List Pipeline)
unfolding link_targets check_sinks
link_sources kind known [] names pipes = ok (names, pipes)
link_sources kind known (source ∷ sources) names pipes = do
  check_sinks source known
  (names', pipes') ← link_targets kind source source.sinks names pipes
  link_sources kind known sources names' pipes'

module _ {P Q T : Type 0} (load : String → Result P) (plugin : String → Option (Q → Result T))
    (no_parameters : Q) where
  abbrev parameters_of : Option Q → Q
  parameters_of none = no_parameters
  parameters_of (some q) = q

  -- The look-up of the name stands inside the `try`, whose handler looks it up again.
  unfoldable pub setup_transformers : List (TransformerCfg Q) → Result (List T)
  setup_transformers [] = ok []
  setup_transformers (c ∷ cs) = do
    given ← require key_error c.parameters
    name ← require key_error c.name
    make ← require (pipeline_exception no_transformer_named) (plugin name)
    t ← make (parameters_of given)
    ts ← setup_transformers cs
    ok (t ∷ ts)

  unfoldable pub make_sink : PublisherManager P → SinkCfg Q → Result (Sink T × PublisherManager P)
  unfolding setup_transformers
  make_sink m cfg = do
    name ← require (pipeline_exception name_missing) cfg.name
    refuse_if no_publisher (is_empty (or_empty cfg.publishers))
    let (urls, m') = load_publishers load m (or_empty cfg.publishers)
    ts ← setup_transformers (or_empty cfg.transformers)
    ok (
      record {
        name = name;
        publishers = urls;
        multi_publish = ltb 1 (length urls);
        transformers = ts;
      },
      m',
    )

  -- The loop over `cfg.get('sinks')`, with `unique_names`, the dict `sinks` and the publishers.
  unfoldable pub make_sinks :
      List (Option String)
      → List (String × Sink T)
      → PublisherManager P
      → List (SinkCfg Q)
      → Result (List (String × Sink T) × PublisherManager P)
  unfolding make_sink
  make_sinks names sinks m [] = ok (sinks, m)
  make_sinks names sinks m (s ∷ ss) = do
    refuse_if duplicated_sink (contains names s.name)
    (sink, m') ← make_sink m s
    key ← require key_error s.name
    make_sinks (names ++ s.name ∷ []) (Dict.put sinks key sink) m' ss

  unfoldable pub pipeline_manager : PipelineType → Config Q → Result (PipelineManager P T)
  unfolding make_sources make_sinks link_sources
  pipeline_manager kind cfg = do
    source_cfgs ← require (pipeline_exception sources_and_sinks_required) cfg.sources
    sink_cfgs ← require (pipeline_exception sources_and_sinks_required) cfg.sinks
    sources ← make_sources kind [] source_cfgs
    (sinks, m) ← make_sinks [] [] (record { loaded = [] }) sink_cfgs
    (names, pipes) ← link_sources kind (map (λ entry. entry.0) sinks) sources [] []
    ok (record { pipelines = pipes; sinks = sinks; publishers = m })

unfoldable polling_sources : List SourceCfg → Result (List PollingSource)
polling_sources [] = ok []
polling_sources (s ∷ ss) = do
  source ← polling_source s
  sources ← polling_sources ss
  ok (source ∷ sources)

-- `PollingManager.__init__`: the sources of the polling agent. Their names need not differ.
unfoldable pub polling_manager : Option (List SourceCfg) → Result (List PollingSource)
unfolding polling_sources
polling_manager none = raise (polling_exception sources_required)
polling_manager (some cfgs) = polling_sources cfgs
