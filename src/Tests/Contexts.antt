-- ===== src/Tests/Contexts.antt =====
-- Pipelines and contexts with concrete sources, sinks and publishers.
use stx_ceilometer.Prelude.{
  ℕ, String, ◌≡◌, refl, Bool, true, some, List, [], ◌∷◌, ◌++◌, arith, Result, ok, raise, Exception,
  if◌then◌else◌, ◌==◌, string_eq, any,
}
use stx_ceilometer.Prelude.{value_error, type_error, external}
use stx_ceilometer.Pipeline.Source.{PipelineSource, support, is_supported, check_source_filtering}
use stx_ceilometer.Pipeline.Source.Support.{is_supported-included}
use stx_ceilometer.Pipeline.Sink.{Sink, TransformerBase, Publish, publish_samples, publish_events}
use stx_ceilometer.Pipeline.Publish.{
  Volume, missing, number, other, items, EventPipeline, publish_event_context, for_each,
  publish_event_data, select_if, publish_sample_data, is_wanted, validate_volume,
}
use stx_ceilometer.Pipeline.Publish.Reach.{
  due_calls, wanted, publish_event_context-reach, publish_sample_data-kept,
  publish_sample_data-raise,
}

-- Only the broken publisher fails; every call is recorded.
abbrev recording : {E : Type 0} → Publish E (List (String × List E))
recording p batch w = (if p == "broken" then raise external else ok tt, w ++ (p, batch) ∷ [])

-- A name is matched by itself.
abbrev exact : String → String → Bool
exact name pattern = name == pattern

abbrev source_of : String → PipelineSource
source_of pattern = record { name = pattern; sinks = "s" ∷ []; dataset = pattern ∷ [] }

abbrev sink : Sink ℕ
sink = record {
  name = "s";
  publishers = "broken" ∷ "udp" ∷ [];
  multi_publish = true;
  transformers = [];
}

abbrev pipe_of : String → EventPipeline ℕ
pipe_of pattern = record { source = source_of pattern; sink = sink }

-- An event is its type.
publish_started :
    (publish_event_context exact
      (λ (e : String). e)
      recording
      (pipe_of "start" ∷ pipe_of "end" ∷ [])
      (items ("start" ∷ "end" ∷ "start" ∷ []))
      []).1
    ≡ ("broken", "start" ∷ "start" ∷ [])
      ∷ ("udp", "start" ∷ "start" ∷ [])
      ∷ ("broken", "end" ∷ [])
      ∷ ("udp", "end" ∷ [])
      ∷ []
unfolding publish_event_context for_each publish_event_data select_if support is_supported
    publish_events
publish_started = refl

abbrev supports : EventPipeline ℕ → String → Bool
supports pipe name = any (exact name) pipe.source.dataset

start_answers :
    (name : String) → support exact (source_of "start") name ≡ ok (any (exact name) ("start" ∷ []))
unfolding support check_source_filtering
start_answers name = is_supported-included exact ("start" ∷ []) name refl refl

end_answers :
    (name : String) → support exact (source_of "end") name ≡ ok (any (exact name) ("end" ∷ []))
unfolding support check_source_filtering
end_answers name = is_supported-included exact ("end" ∷ []) name refl refl

abbrev pipes : List (EventPipeline ℕ)
pipes = pipe_of "start" ∷ pipe_of "end" ∷ []

abbrev events : List String
events = "start" ∷ "end" ∷ "start" ∷ []

publish_event_context-reach_example :
    ((publish_event_context exact (λ (e : String). e) recording pipes (items events) []).0 ≡ ok tt)
    × ((publish_event_context exact (λ (e : String). e) recording pipes (items events) []).1
        ≡ []
          ++ due_calls exact
              (λ (e : String). e)
              recording
              (λ w. w)
              (λ p batch w. refl)
              supports
              pipes
              events)
publish_event_context-reach_example =
    publish_event_context-reach exact (λ (e : String). e) recording (λ w. w) (λ p batch w. refl)
      supports pipes (items events) []
      ((start_answers, refl, omega arith), ((end_answers, refl, omega arith), tt))

-- A sample is its name and its volume: text stands for what is no number.
abbrev Reading : Type 0
Reading = String × Volume String

abbrev float : String → Result ℕ
float v = if v == "12" then ok 12 else if v == "list" then raise type_error else raise value_error

abbrev keeping : TransformerBase ℕ Reading
keeping = record { handle_sample = λ t s. (ok (some s), t); flush = λ t. (ok [], t) }

abbrev text_only : String → Result ℕ
text_only v = if v == "12" then ok 12 else raise value_error

text_only_raises : (v : String) (e : Exception) → text_only v ≡ raise e → e ≡ value_error
text_only_raises v e h = ground arith

abbrev readings : List Reading
readings = ("cpu", number) ∷ ("cpu", missing) ∷ ("cpu", other "12") ∷ ("cpu", other "x") ∷ []

abbrev reading_name : Reading → String
reading_name r = r.0

abbrev reading_volume : Reading → Volume String
reading_volume r = r.1

cpu_answers :
    (name : String) → support exact (source_of "cpu") name ≡ ok (any (exact name) ("cpu" ∷ []))
unfolding support check_source_filtering
cpu_answers name = is_supported-included exact ("cpu" ∷ []) name refl refl

publish_sample_data-kept_example :
    publish_sample_data exact reading_name reading_volume text_only keeping recording
      (items readings)
      (source_of "cpu")
      sink
      []
    ≡ (
      ok tt,
      (publish_samples keeping recording sink
          (wanted exact reading_name reading_volume text_only keeping recording
            (λ name. any (exact name) ("cpu" ∷ []))
            (items readings))
          []).0,
      (publish_samples keeping recording sink
          (wanted exact reading_name reading_volume text_only keeping recording
            (λ name. any (exact name) ("cpu" ∷ []))
            (items readings))
          []).1,
    )
publish_sample_data-kept_example =
    publish_sample_data-kept exact reading_name reading_volume text_only keeping recording
      (items readings) (source_of "cpu") sink [] (λ name. any (exact name) ("cpu" ∷ [])) cpu_answers
      text_only_raises

publish_sample_data-raise_example :
    publish_sample_data exact reading_name reading_volume float keeping recording
      (items (("cpu", number) ∷ ("cpu", other "list") ∷ []))
      (source_of "cpu")
      sink
      []
    ≡ (raise type_error, sink, [])
unfolding support is_supported is_wanted validate_volume
publish_sample_data-raise_example =
    publish_sample_data-raise exact reading_name reading_volume float keeping recording
      (("cpu", number) ∷ []) ("cpu", other "list") [] (source_of "cpu") sink [] "list" type_error
      ((true, refl), tt) refl refl refl (λ e. cc)
