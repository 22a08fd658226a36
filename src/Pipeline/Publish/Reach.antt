-- ===== src/Pipeline/Publish/Reach.antt =====
-- What the pipelines of ceilometer/pipeline.py hand to their sinks.
use stx_ceilometer.Prelude.{
  ◌<◌, String, ◌≡◌, ◌≢◌, refl, sym, ap, ◌∙◌, Bool, true, false, ◌&&◌, ◌⊎◌, inl, inr, List, [], ◌∷◌,
  ◌++◌, append-nil, append_assoc, arith, Result, ok, raise, Exception, length, All, string_eq,
  filter, value_error,
}
use stx_ceilometer.Pipeline.Source.{PipelineSource, support}
use stx_ceilometer.Pipeline.Sink.{Sink, Publish, TransformerBase, publish_samples, publish_events}
use stx_ceilometer.Pipeline.Sink.Delivery.{calls_of, IsBuilt, publish_events-multi}
use stx_ceilometer.Pipeline.Publish.{
  missing, number, other, items, accepts, accepts-raise, Volume, Batch, listed, select_if, for_each,
  EventPipeline, publish_event_data, publish_event_context, is_wanted, publish_sample_data,
  validate_volume, other, items,
}

select_if_lem :
    {S : Type 0} (test : S → Result Bool) (plain : S → Bool) (xs : List S)
    → ((x : S) → test x ≡ ok (plain x))
    → select_if test xs ≡ ok (filter plain xs)
unfolding select_if
select_if_lem test plain [] h = refl
select_if_lem test plain (x ∷ xs) h = ground (arith, h x, select_if_lem test plain xs h)

select_if-raise :
    {S : Type 0} (test : S → Result Bool) (before : List S) (s : S) (rest : List S) (e : Exception)
    → All (λ x. (b : Bool) × (test x ≡ ok b)) before
    → test s ≡ raise e
    → select_if test (before ++ s ∷ rest) ≡ raise e
unfolding select_if
select_if-raise test [] s rest e fine h = ground arith
select_if-raise test (x ∷ before) s rest e ((b, passes), fine) h =
    ground (arith, select_if-raise test before s rest e fine h)

for_each-ok :
    {A W : Type 0} (step : A → W → Result (Unit {0}) × W) (a : A) (rest : List A) (w : W)
    → (step a w).0 ≡ ok tt
    → for_each step (a ∷ rest) w ≡ for_each step rest (step a w).1
unfolding for_each
for_each-ok step a rest w h = ground arith

module _ {E W T : Type 0} (fnmatch : String → String → Bool) (event_type : E → String)
    (publish : Publish E W) (calls : W → List (String × List E))
    (recorded : (p : String) (batch : List E) (w : W)
      → calls (publish p batch w).1 ≡ calls w ++ (p, batch) ∷ []) where
  -- The calls of publishers that a batch should cause: each pipeline's, in order, with the events
  -- that its source supports.
  abbrev pub due_calls :
      (EventPipeline T → String → Bool) → List (EventPipeline T) → List E → List (String × List E)
  due_calls supports [] events = []
  due_calls supports (pipe ∷ pipes) events =
      calls_of pipe.sink.publishers (filter (λ e. supports pipe (event_type e)) events)
      ++ due_calls supports pipes events

  module _ (supports : EventPipeline T → String → Bool) where
    -- The source answers for every name, and the sink was built with two publishers or more.
    abbrev pub IsFit : EventPipeline T → Type 0
    IsFit pipe =
        ((name : String) → support fnmatch pipe.source name ≡ ok (supports pipe name))
        × IsBuilt pipe.sink
        × (1 < length pipe.sink.publishers)

    publish_event_data_lem :
        (batch : Batch E) (pipe : EventPipeline T) (w : W)
        → IsFit pipe
        → publish_event_data fnmatch event_type publish batch pipe w
          ≡ publish_events publish pipe.sink
              (filter (λ e. supports pipe (event_type e)) (listed batch))
              w
    unfolding publish_event_data
    publish_event_data_lem batch pipe w (answers, built, many) =
        rw
          (select_if_lem (λ e. support fnmatch pipe.source (event_type e))
            (λ e. supports pipe (event_type e)) (listed batch) (λ e. answers (event_type e)))
          refl

    -- Events that are published through a context reach, for each of its pipelines in order, every
    -- publisher of the pipeline's sink once, with exactly the events that the pipeline's source
    -- supports, and nothing is raised, whichever publishers fail. Each sink has two publishers or
    -- more, and the sources answer for every name.
    pub publish_event_context-reach :
        (pipes : List (EventPipeline T)) (batch : Batch E) (w : W)
        → All IsFit pipes
        → ((publish_event_context fnmatch event_type publish pipes batch w).0 ≡ ok tt)
          × (calls (publish_event_context fnmatch event_type publish pipes batch w).1
              ≡ calls w ++ due_calls supports pipes (listed batch))
    unfolding publish_event_context for_each
    publish_event_context-reach [] batch w h = (refl, sym (append-nil (calls w)))
    publish_event_context-reach (pipe ∷ pipes) batch w ((answers, built, many), later) =
        let kept = filter (λ e. supports pipe (event_type e)) (listed batch) in
        let (quiet, called) =
          publish_events-multi publish calls recorded pipe.sink kept w built many in
        let w' = (publish_events publish pipe.sink kept w).1 in
        let (done, all_called) = publish_event_context-reach pipes batch w' later in
        let step = publish_event_data fnmatch event_type publish {T = T} batch in
        let one = publish_event_data_lem batch pipe w (answers, built, many) in
        let on : publish_event_context fnmatch event_type publish (pipe ∷ pipes) batch w
            ≡ publish_event_context fnmatch event_type publish pipes batch w' =
          for_each-ok step pipe pipes w (ap (λ out. out.0) one ∙ quiet)
          ∙ ap (λ (out : Result (Unit {0}) × W). for_each step pipes out.1) one in
        rw on (
          done,
          all_called
              ∙ ap (λ l. l ++ due_calls supports pipes (listed batch)) called
              ∙ append_assoc (calls w) (calls_of pipe.sink.publishers kept)
                  (due_calls supports pipes (listed batch)),
        )

Result-cases :
    {F : Type 0} (r : Result F) → ((n : F) × (r ≡ ok n)) ⊎ ((e : Exception) × (r ≡ raise e))
Result-cases (ok n) = inl (n, refl)
Result-cases (raise e) = inr (e, refl)

-- Which volumes `_validate_volume` lets through: numbers, and what `float` converts.
abbrev pub is_numeric : {V F : Type 0} → (V → Result F) → Volume V → Bool
is_numeric float missing = false
is_numeric float number = true
is_numeric float (other v) = elim (float v) [ ok n ↦ true | raise e ↦ false ]

module _ {S V F T W : Type 0} (fnmatch : String → String → Bool) (name_of : S → String)
    (volume_of : S → Volume V) (float : V → Result F) (ops : TransformerBase T S)
    (publish : Publish S W) where
  validate_volume_lem :
      (volume : Volume V)
      → ((v : V) (e : Exception) → float v ≡ raise e → e ≡ value_error)
      → validate_volume float volume ≡ ok (is_numeric float volume)
  unfolding validate_volume accepts
  validate_volume_lem missing h = refl
  validate_volume_lem number h = refl
  validate_volume_lem (other v) h = elim (Result-cases (float v)) [
    | inl (n, converted) ↦ ground arith
    | inr (e, raised) ↦ let known = h v e raised in ground arith
  ]

  -- The samples of a supported name whose volume is numeric.
  abbrev pub wanted : (String → Bool) → Batch S → List S
  wanted supports batch =
      filter (λ s. supports (name_of s) && is_numeric float (volume_of s)) (listed batch)

  -- A sample pipeline whose source answers for every name hands its sink exactly the samples that
  -- the source supports and whose volume is a number or is converted by `float`, and raises nothing,
  -- if `float` raises nothing but ValueError.
  pub publish_sample_data-kept :
      (batch : Batch S) (source : PipelineSource) (sink : Sink T) (w : W) (supports : String → Bool)
      → ((name : String) → support fnmatch source name ≡ ok (supports name))
      → ((v : V) (e : Exception) → float v ≡ raise e → e ≡ value_error)
      → publish_sample_data fnmatch name_of volume_of float ops publish batch source sink w ≡ (
        ok tt,
        (publish_samples ops publish sink (wanted supports batch) w).0,
        (publish_samples ops publish sink (wanted supports batch) w).1,
      )
  unfolding publish_sample_data is_wanted
  publish_sample_data-kept batch source sink w supports answers converts =
      rw
        (select_if_lem (is_wanted fnmatch name_of volume_of float ops publish source)
          (λ s. supports (name_of s) && is_numeric float (volume_of s)) (listed batch)
          (λ s. ground (arith, answers (name_of s), validate_volume_lem (volume_of s) converts)))
        refl

  -- A sample that its source supports, and for whose volume `float` raises another exception than
  -- ValueError, keeps every sample of its batch from the sink, where the samples before it are
  -- tested without an exception: `publish_data` raises that exception and neither the sink nor the
  -- outside changes.
  pub publish_sample_data-raise :
      (before : List S) (s : S) (rest : List S) (source : PipelineSource) (sink : Sink T) (w : W)
      (v : V) (e : Exception)
      → All
          (λ x.
            (b : Bool) × (is_wanted fnmatch name_of volume_of float ops publish source x ≡ ok b))
          before
      → support fnmatch source (name_of s) ≡ ok true
      → volume_of s ≡ other v
      → float v ≡ raise e
      → e ≢ value_error
      → publish_sample_data fnmatch name_of volume_of float ops publish
          (items (before ++ s ∷ rest))
          source
          sink
          w
        ≡ (raise e, sink, w)
  unfolding publish_sample_data is_wanted validate_volume
  publish_sample_data-raise before s rest source sink w v e fine supported volume fails strange =
      let refused : is_wanted fnmatch name_of volume_of float ops publish source s ≡ raise e =
        rw (supported, volume, fails) (accepts-raise F e strange) in
      rw
        (select_if-raise (is_wanted fnmatch name_of volume_of float ops publish source) before s
          rest e fine refused)
        refl
