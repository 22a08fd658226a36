-- ===== src/Pipeline/Sink/Delivery.antt =====
-- Which publishers a sink of ceilometer/pipeline.py calls, whatever they answer.
use stx_ceilometer.Prelude.{
  ◌<◌, String, ◌≡◌, refl, sym, ◌∙◌, ap, Bool, true, Exception, List, [], ◌∷◌, ◌++◌, map, append-nil,
  append_assoc, arith, ok, raise, length, is_empty, if◌then◌else◌, ltb,
}
use stx_ceilometer.Pipeline.Sink.{
  Sink, Publish, TransformerBase, publish_to_all, publish_or_raise, publish_events, publish_samples,
  transform_samples,
}

-- The batch that reaches the publishers of a sample sink.
abbrev pub outgoing : {T S : Type 0} → TransformerBase T S → Sink T → List S → List S
outgoing ops sink samples =
    if is_empty sink.transformers
    then samples
    else (transform_samples ops 0 sink.transformers samples).0

-- One call with the batch for each publisher, in the sink's order; none for an empty batch.
abbrev pub calls_of : {D : Type 0} → List String → List D → List (String × List D)
calls_of publishers batch = if is_empty batch then [] else map (λ p. (p, batch)) publishers

-- `multi_publish` as `Sink.__init__` sets it.
abbrev pub IsBuilt : {T : Type 0} → Sink T → Type 0
IsBuilt sink = sink.multi_publish ≡ ltb 1 (length sink.publishers)

module _ {D W : Type 0} (publish : Publish D W) (calls : W → List (String × List D))
    (recorded : (p : String) (batch : List D) (w : W)
      → calls (publish p batch w).1 ≡ calls w ++ (p, batch) ∷ []) where
  publish_to_all-calls :
      (ps : List String) (batch : List D) (w : W)
      → calls (publish_to_all publish ps batch w) ≡ calls w ++ map (λ p. (p, batch)) ps
  unfolding publish_to_all
  publish_to_all-calls [] batch w = sym (append-nil (calls w))
  publish_to_all-calls (p ∷ ps) batch w =
      publish_to_all-calls ps batch (publish p batch w).1
      ∙ ap (λ l. l ++ map (λ q. (q, batch)) ps) (recorded p batch w)
      ∙ append_assoc (calls w) ((p, batch) ∷ []) (map (λ q. (q, batch)) ps)

  publish_or_raise-calls :
      (ps : List String) (batch : List D) (w : W)
      → ((publish_or_raise publish true ps batch w).0 ≡ ok tt)
        × (calls (publish_or_raise publish true ps batch w).1 ≡ calls w ++ map (λ p. (p, batch)) ps)
  unfolding publish_or_raise
  publish_or_raise-calls [] batch w = (refl, sym (append-nil (calls w)))
  publish_or_raise-calls (p ∷ ps) batch w =
      let w' = (publish p batch w).1 in
      let (done, all_called) = publish_or_raise-calls ps batch w' in
      let called =
        all_called
        ∙ ap (λ l. l ++ map (λ q. (q, batch)) ps) (recorded p batch w)
        ∙ append_assoc (calls w) ((p, batch) ∷ []) (map (λ q. (q, batch)) ps) in
      ground (arith, done, called)

  -- An event sink with two publishers or more calls every one of them once, in order, with all of
  -- the events, and raises nothing, whichever of them fail; it calls none when there is no event.
  pub publish_events-multi :
      {T : Type 0} (sink : Sink T) (events : List D) (w : W)
      → IsBuilt sink
      → 1 < length sink.publishers
      → ((publish_events publish sink events w).0 ≡ ok tt)
        × (calls (publish_events publish sink events w).1
            ≡ calls w ++ calls_of sink.publishers events)
  unfolding publish_events
  publish_events-multi sink [] w built many = (refl, sym (append-nil (calls w)))
  publish_events-multi sink (e ∷ es) w built many =
      let multi : sink.multi_publish ≡ true = ground arith in
      simp multi (publish_or_raise-calls sink.publishers (e ∷ es) w)

module _ {D W : Type 0} (publish : Publish D W) where
  publish_or_raise-multi :
      (ps : List String) (batch : List D) (w : W)
      → (publish_or_raise publish true ps batch w).0 ≡ ok tt
  unfolding publish_or_raise
  publish_or_raise-multi [] batch w = refl
  publish_or_raise-multi (p ∷ ps) batch w =
      ground (arith, publish_or_raise-multi ps batch (publish p batch w).1)

  publish_or_raise-raise :
      (ps : List String) (multi : Bool) (batch : List D) (w : W) (e : Exception)
      → multi ≡ ltb 1 (length ps)
      → (publish_or_raise publish multi ps batch w).0 ≡ raise e
      → (p : String) × (ps ≡ p ∷ []) × ((publish p batch w).0 ≡ raise e)
  unfolding publish_or_raise
  publish_or_raise-raise [] multi batch w e built h = cc
  publish_or_raise-raise (p ∷ []) multi batch w e built h =
      (p, refl, ground (arith, publish_or_raise-multi [] batch (publish p batch w).1))
  publish_or_raise-raise (p ∷ q ∷ ps) multi batch w e built h =
      let several : multi ≡ true = ground arith in
      let quiet : (publish_or_raise publish true (p ∷ q ∷ ps) batch w).0 ≡ ok tt =
        publish_or_raise-multi (p ∷ q ∷ ps) batch w in
      absurd (cc (quiet, rw several at h))

  -- An event sink raises only with the exception of its only publisher.
  publish_events-raise :
      {T : Type 0} (sink : Sink T) (events : List D) (w : W) (e : Exception)
      → IsBuilt sink
      → (publish_events publish sink events w).0 ≡ raise e
      → (p : String) × (sink.publishers ≡ p ∷ []) × ((publish p events w).0 ≡ raise e)
  unfolding publish_events
  publish_events-raise sink [] w e built h = cc
  publish_events-raise sink (x ∷ xs) w e built h =
      publish_or_raise-raise sink.publishers sink.multi_publish (x ∷ xs) w e built h

module _ {T S W : Type 0} (ops : TransformerBase T S) (publish : Publish S W)
    (calls : W → List (String × List S))
    (recorded : (p : String) (batch : List S) (w : W)
      → calls (publish p batch w).1 ≡ calls w ++ (p, batch) ∷ []) where
  -- A sample sink calls every publisher once, in order, with the transformed batch, whichever of
  -- them fail; it calls none when the transformers leave no sample.
  pub publish_samples-calls :
      (sink : Sink T) (samples : List S) (w : W)
      → calls (publish_samples ops publish sink samples w).1
        ≡ calls w ++ calls_of sink.publishers (outgoing ops sink samples)
  unfolding publish_samples
  publish_samples-calls sink samples w =
      let batch = (transform_samples ops 0 sink.transformers samples).0 in
      ground (
        arith,
        publish_to_all-calls publish calls recorded sink.publishers samples w,
        publish_to_all-calls publish calls recorded sink.publishers batch w,
        append-nil (calls w),
      )
