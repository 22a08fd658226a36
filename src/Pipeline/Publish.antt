-- ===== src/Pipeline/Publish.antt =====
-- ceilometer/pipeline.py: `publish_data` of the two pipelines, and `PublishContext`. The set of
-- pipelines of a context is a list, in the order in which the set gives them.
pub mod Reach
use stx_ceilometer.Prelude.{
  ℕ, zero, suc, ◌+◌, ◌-◌, ◌*◌, ◌≤◌, ◌<◌, String, ◌≡◌, ◌≢◌, refl, sym, ap, ◌∙◌, subst, Bool, true,
  false, not, ◌&&◌, ◌||◌, ◌↔◌, ◌⊎◌, inl, inr, Option, none, some, List, [], ◌∷◌, ◌++◌, map,
  append-nil, append_assoc, arith, Result, ok, raise, Exception, ◌>>=◌, ◌>>◌, >>=-eq-ok,
  if◌then◌else◌, Bool-cases, Option-cases, ◌==◌, ==_iff, ==_refl, length, contains, All, IsUnique,
  string_eq, ltb, leb, any, all, filter, is_empty, pipeline_exception, polling_exception,
  event_definition_exception, resource_definition_exception, definition_exception,
  meter_definition_exception,
}
use stx_ceilometer.Prelude.{
  value_error, pipeline_exception, polling_exception, key_error, index_error, type_error,
  attribute_error, zero_division_error, delivery_failure, client_exception, os_error,
  not_implemented, unicode_encode_error, client_side_error, project_not_authorized, invalid_input,
  unknown_argument, forbidden, syntax_error, validation_error, external,
}
use stx_ceilometer.Prelude.Dict
use stx_ceilometer.Pipeline.Source.{PipelineSource, support}
use stx_ceilometer.Pipeline.Sink.{
  Sink, TransformerBase, Publish, publish_events, publish_samples, flush,
}

-- A volume is None, an int or a float, or another value.
pub data Volume (V : Type 0) : Type 0 where
  missing : Volume V
  number : Volume V
  other : V → Volume V

-- What `publish_data` is called with: a list, or a single item.
pub data Batch (S : Type 0) : Type 0 where
  items : List S → Batch S
  item : S → Batch S

abbrev pub listed : {S : Type 0} → Batch S → List S
listed (items xs) = xs
listed (item x) = x ∷ []

-- The `try` around `float(volume)`.
unfoldable pub accepts : {F : Type 0} → Result F → Result Bool
accepts (ok n) = ok true
accepts (raise value_error) = ok false
accepts (raise e) = raise e

pub accepts-raise :
    (F : Type 0) (e : Exception) → e ≢ value_error → accepts {F = F} (raise e) ≡ raise e
unfolding accepts
accepts-raise F value_error h = absurd (h refl)
accepts-raise F (pipeline_exception m) h = refl
accepts-raise F (polling_exception m) h = refl
accepts-raise F (event_definition_exception m) h = refl
accepts-raise F (definition_exception m) h = refl
accepts-raise F (meter_definition_exception m) h = refl
accepts-raise F (resource_definition_exception m) h = refl
accepts-raise F key_error h = refl
accepts-raise F index_error h = refl
accepts-raise F type_error h = refl
accepts-raise F attribute_error h = refl
accepts-raise F zero_division_error h = refl
accepts-raise F delivery_failure h = refl
accepts-raise F client_exception h = refl
accepts-raise F os_error h = refl
accepts-raise F not_implemented h = refl
accepts-raise F unicode_encode_error h = refl
accepts-raise F client_side_error h = refl
accepts-raise F project_not_authorized h = refl
accepts-raise F invalid_input h = refl
accepts-raise F unknown_argument h = refl
accepts-raise F forbidden h = refl
accepts-raise F syntax_error h = refl
accepts-raise F validation_error h = refl
accepts-raise F external h = refl

-- `_validate_volume`, where `float` is Python's conversion.
unfoldable pub validate_volume : {V F : Type 0} → (V → Result F) → Volume V → Result Bool
unfolding accepts
validate_volume float missing = ok false
validate_volume float number = ok true
validate_volume float (other v) = accepts (float v)

-- A comprehension whose condition may raise.
unfoldable pub select_if : {S : Type 0} → (S → Result Bool) → List S → Result (List S)
select_if test [] = ok []
select_if test (x ∷ xs) = do
  wanted ← test x
  let later = select_if test xs
  kept ← later
  ok (if wanted then x ∷ kept else kept)

-- The loop of a context over its pipelines: an exception leaves it.
unfoldable pub for_each :
    {A W : Type 0} → (A → W → Result (Unit {0}) × W) → List A → W → Result (Unit {0}) × W
for_each step [] w = (ok tt, w)
for_each step (a ∷ rest) w =
    let (result, w') = step a w in
    elim result [ ok _ ↦ for_each step rest w' | raise e ↦ (raise e, w') ]

pub record EventPipeline (T : Type 0) : Type 0 where
  pub source : PipelineSource
  pub sink : Sink T

module _ {E W : Type 0} (fnmatch : String → String → Bool) (event_type : E → String)
    (publish : Publish E W) where
  publish_kept : {T : Type 0} → Sink T → Result (List E) → W → Result (Unit {0}) × W
  publish_kept sink (raise e) w = (raise e, w)
  publish_kept sink (ok events) w = publish_events publish sink events w

  -- `EventPipeline.publish_data`
  unfoldable pub publish_event_data :
      {T : Type 0} → Batch E → EventPipeline T → W → Result (Unit {0}) × W
  unfolding publish_kept
  publish_event_data batch pipe w =
      publish_kept pipe.sink
        (select_if (λ e. support fnmatch pipe.source (event_type e)) (listed batch)) w

  -- The function that `__enter__` of a context of event pipelines gives.
  unfoldable pub publish_event_context :
      {T : Type 0} → List (EventPipeline T) → Batch E → W → Result (Unit {0}) × W
  publish_event_context pipes batch w = for_each (publish_event_data batch) pipes w

-- A sample pipeline names its sink, since a transformer's state is shared by the pipelines of a sink.
pub record SamplePipeline : Type 0 where
  pub source : PipelineSource
  pub sink : String

pub record Stage (T W : Type 0) : Type 0 where
  pub sinks : List (String × Sink T)
  pub world : W

module _ {S V F T W : Type 0} (fnmatch : String → String → Bool) (name_of : S → String)
    (volume_of : S → Volume V) (float : V → Result F) (ops : TransformerBase T S)
    (publish : Publish S W) where
  and_then : Result Bool → Result Bool → Result Bool
  and_then (raise e) later = raise e
  and_then (ok false) later = ok false
  and_then (ok true) later = later

  -- `self.source.support_meter(s.name) and self._validate_volume(s)`
  unfoldable pub is_wanted : PipelineSource → S → Result Bool
  unfolding and_then
  is_wanted source s =
      and_then (support fnmatch source (name_of s)) (validate_volume float (volume_of s))

  publish_selected : Result (List S) → Sink T → W → Result (Unit {0}) × Sink T × W
  publish_selected (raise e) sink w = (raise e, sink, w)
  publish_selected (ok samples) sink w =
      let (sink', w') = publish_samples ops publish sink samples w in (ok tt, sink', w')

  -- `SamplePipeline.publish_data`
  unfoldable pub publish_sample_data :
      Batch S → PipelineSource → Sink T → W → Result (Unit {0}) × Sink T × W
  unfolding publish_selected
  publish_sample_data batch source sink w =
      publish_selected (select_if (is_wanted source) (listed batch)) sink w

  -- `none` does not occur: a pipeline's sink is one of the manager's.
  publish_at :
      Batch S → Option (Sink T) → SamplePipeline → Stage T W → Result (Unit {0}) × Stage T W
  unfolding publish_sample_data
  publish_at batch none pipe stage = (ok tt, stage)
  publish_at batch (some sink) pipe stage =
      let (result, sink', w) = publish_sample_data batch pipe.source sink stage.world in
      (result, record { sinks = Dict.put stage.sinks pipe.sink sink'; world = w })

  flush_sink : Option (Sink T) → SamplePipeline → Stage T W → Stage T W
  flush_sink none pipe stage = stage
  flush_sink (some sink) pipe stage =
      let (sink', w) = flush ops publish sink stage.world in
      record { sinks = Dict.put stage.sinks pipe.sink sink'; world = w }

  -- The function that `__enter__` of a context of sample pipelines gives.
  unfoldable pub publish_sample_context :
      List SamplePipeline → Batch S → Stage T W → Result (Unit {0}) × Stage T W
  unfolding publish_at
  publish_sample_context pipes batch stage =
      for_each (λ pipe st. publish_at batch (Dict.get st.sinks pipe.sink) pipe st) pipes stage

  -- `__exit__`: a sink that several pipelines share is flushed for each of them.
  unfoldable pub flush_context : List SamplePipeline → Stage T W → Stage T W
  unfolding flush_sink
  flush_context [] stage = stage
  flush_context (pipe ∷ pipes) stage =
      flush_context pipes (flush_sink (Dict.get stage.sinks pipe.sink) pipe stage)
