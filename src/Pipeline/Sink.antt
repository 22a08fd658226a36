-- ===== src/Pipeline/Sink.antt =====
-- ceilometer/pipeline.py: what `SampleSink` and `EventSink` do with a batch. A transformer is any
-- object with the methods of `TransformerBase`; a publisher is named by its URL and acts on a world
-- that holds every publisher's state, since two sinks may share a publisher.
pub mod Delivery
pub mod Chain
pub mod Flushes
use stx_ceilometer.Prelude.{
  ℕ, zero, suc, String, Bool, true, false, Option, none, some, List, [], ◌∷◌, Result, ok, raise,
  length, is_empty, cons_some, get_elem?, set, if◌then◌else◌,
}

-- ceilometer/transformer/__init__.py: `TransformerBase`. Each method returns the new object too.
pub record TransformerBase (T S : Type 0) : Type 0 where
  pub handle_sample : T → S → Result (Option S) × T
  pub flush : T → Result (List S) × T

-- `publish_samples` or `publish_events` of the publisher with this URL
abbrev pub Publish : Type 0 → Type 0 → Type 0
Publish D W = String → List D → W → Result (Unit {0}) × W

pub record Sink (T : Type 0) : Type 0 where
  pub name : String
  pub publishers : List String
  pub multi_publish : Bool
  pub transformers : List T

module _ {T S : Type 0} where
  -- One round of the loop of `_transform_sample`, behind the call of `handle_sample`.
  after : Result (Option S) → T → List T → (S → Option S × List T) → Option S × List T
  after (raise e) t ts next = (none, t ∷ ts)
  after (ok none) t ts next = (none, t ∷ ts)
  after (ok (some s)) t ts next = let (out, ts') = next s in (out, t ∷ ts')

module _ {T S : Type 0} (ops : TransformerBase T S) where
  -- The loop of `_transform_sample`: an exception and an empty result both end the sample.
  pub transform : List T → S → Option S × List T
  unfolding after
  transform [] s = (some s, [])
  transform (t ∷ ts) s =
      let (result, t') = ops.handle_sample t s in after result t' ts (transform ts)

  -- `_transform_sample(start, sample)`: `self.transformers[start:]`
  unfoldable pub transform_sample : ℕ → List T → S → Option S × List T
  unfolding transform
  transform_sample zero ts s = transform ts s
  transform_sample (suc n) [] s = (some s, [])
  transform_sample (suc n) (t ∷ ts) s = let (out, ts') = transform_sample n ts s in (out, t ∷ ts')

  -- The loop of `_publish_samples` over the samples.
  unfoldable pub transform_samples : ℕ → List T → List S → List S × List T
  unfolding transform_sample
  transform_samples start ts [] = ([], ts)
  transform_samples start ts (s ∷ ss) =
      let (out, ts') = transform_sample start ts s in
      let (outs, ts'') = transform_samples start ts' ss in (cons_some out outs, ts'')

module _ {D W : Type 0} (publish : Publish D W) where
  -- Every publisher of a sample sink is tried: an exception is logged.
  unfoldable pub publish_to_all : List String → List D → W → W
  publish_to_all [] batch w = w
  publish_to_all (p ∷ ps) batch w = publish_to_all ps batch (publish p batch w).1

  -- The loop of `EventSink.publish_events`: with one publisher an exception is raised again.
  unfoldable pub publish_or_raise : Bool → List String → List D → W → Result (Unit {0}) × W
  publish_or_raise multi [] batch w = (ok tt, w)
  publish_or_raise multi (p ∷ ps) batch w =
      let (result, w') = publish p batch w in
      elim result [
        | ok _ ↦ publish_or_raise multi ps batch w'
        | raise e ↦ elim multi [ true ↦ publish_or_raise multi ps batch w' | false ↦ (raise e, w') ]
      ]

  unfoldable pub publish_events : {T : Type 0} → Sink T → List D → W → Result (Unit {0}) × W
  unfolding publish_or_raise
  publish_events sink events w =
      if is_empty events
      then (ok tt, w)
      else publish_or_raise sink.multi_publish sink.publishers events w

module _ {T S W : Type 0} (ops : TransformerBase T S) (publish : Publish S W) where
  -- `if transformed_samples: for p in self.publishers`
  abbrev publish_batch : List String → List S → W → W
  publish_batch publishers batch w =
      if is_empty batch then w else publish_to_all publish publishers batch w

  -- `_publish_samples(start, samples)`
  unfoldable pub publish_samples_from : ℕ → Sink T → List S → W → Sink T × W
  unfolding transform_samples publish_to_all
  publish_samples_from start sink samples w =
      if is_empty sink.transformers
      then (sink, publish_batch sink.publishers samples w)
      else let (batch, ts) = transform_samples ops start sink.transformers samples in
        (record sink { transformers = ts }, publish_batch sink.publishers batch w)

  unfoldable pub publish_samples : Sink T → List S → W → Sink T × W
  unfolding publish_samples_from
  publish_samples = publish_samples_from 0

  -- `try: self._publish_samples(i + 1, list(transformer.flush()))`
  flush_one : Result (List S) → ℕ → Sink T → W → Sink T × W
  flush_one (raise e) i sink w = (sink, w)
  flush_one (ok samples) i sink w = publish_samples_from (suc i) sink samples w

  -- One round of `SampleSink.flush`. The transformers keep their number, so `none` does not occur.
  flush_at : ℕ → Sink T → W → Sink T × W
  unfolding flush_one
  flush_at i sink w = elim (get_elem? sink.transformers i) [
    | none ↦ (sink, w)
    | some t ↦
        let (result, t') = ops.flush t in
        flush_one result i (record sink { transformers = set sink.transformers i t' }) w
  ]

  -- `for (i, transformer) in enumerate(self.transformers)`, by the rounds left and `i`
  flush_rounds : ℕ → ℕ → Sink T → W → Sink T × W
  unfolding flush_at
  flush_rounds zero i sink w = (sink, w)
  flush_rounds (suc n) i sink w =
      let (sink', w') = flush_at i sink w in flush_rounds n (suc i) sink' w'

  unfoldable pub flush : Sink T → W → Sink T × W
  unfolding flush_rounds publish_samples_from
  flush sink w = flush_rounds (length sink.transformers) 0 sink w
