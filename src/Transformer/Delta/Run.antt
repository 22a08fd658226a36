-- ===== src/Transformer/Delta/Run.antt =====
-- What a `DeltaTransformer` of ceilometer/transformer/conversions.py emits and remembers.
use stx_ceilometer.Prelude.{
  String, ◌≡◌, refl, true, false, Option, none, some, List, [], ◌∷◌, arith, Result, ok, raise,
  ==_iff, string_eq,
}
use stx_ceilometer.Prelude.Dict
use stx_ceilometer.Sample.{Sample, derive}
use stx_ceilometer.Transformer.Conversion.{Env, ConversionCfg}
use stx_ceilometer.Transformer.Delta.{
  Clock, DeltaTransformer, cache_key, convert_delta, handle_sample,
}

module _ {Time N D : Type 0} (env : Env N D) (clock : Clock Time N) where
  open env.numbers use {zero as zero_volume, sub, lt}

  -- A sample that is older than the last one of its key is dropped, and the cache answers for every
  -- key as before.
  handle_sample-out_of_order :
      (t : DeltaTransformer Time N) (s : Sample N D) (time prev_time : Time) (prev_volume : N)
      → clock.parse_isotime s.timestamp ≡ ok time
      → Dict.get t.cache (cache_key s) ≡ some (prev_volume, prev_time)
      → lt (clock.delta_seconds prev_time time) zero_volume ≡ true
      → ((handle_sample env clock t s).0 ≡ ok none)
        × ((key : String)
            → Dict.get (handle_sample env clock t s).1.cache key ≡ Dict.get t.cache key)
  unfolding handle_sample
  handle_sample-out_of_order t s time prev_time prev_volume parsed cached older =
      let key_of = cache_key s in
      let written = Dict.put t.cache key_of (s.volume, time) in
      (
        ground arith,
        λ key. ground (
          arith,
          Dict.get-put written key_of key (prev_volume, prev_time),
          Dict.get-put t.cache key_of key (s.volume, time),
          ==_iff key_of key,
        ),
      )

  -- With `growth_only` no emitted delta is negative.
  handle_sample-growth :
      (t : DeltaTransformer Time N) (s out : Sample N D)
      → t.growth_only ≡ true
      → (handle_sample env clock t s).0 ≡ ok (some out)
      → lt out.volume zero_volume ≡ false
  unfolding handle_sample derive
  handle_sample-growth t s out growth h = ground arith

  counted : N → Result (Option (Sample N D)) → N
  counted acc (ok (some out)) = env.numbers.add acc out.volume
  counted acc (ok none) = acc
  counted acc (raise e) = acc

  delta_volume :
      (cfg : ConversionCfg N) (s : Sample N D) (delta : N) (acc : N)
      → counted acc (ok (some (convert_delta env cfg s delta))) ≡ env.numbers.add acc delta
  unfolding counted convert_delta derive
  delta_volume cfg s delta acc = refl

  -- A sample in time order, of a key that is in the cache.
  in_order_step :
      (t : DeltaTransformer Time N) (s : Sample N D) (time prev_time : Time) (prev_volume : N)
      → t.growth_only ≡ false
      → clock.parse_isotime s.timestamp ≡ ok time
      → Dict.get t.cache (cache_key s) ≡ some (prev_volume, prev_time)
      → lt (clock.delta_seconds prev_time time) zero_volume ≡ false
      → handle_sample env clock t s ≡ (
        ok (some (convert_delta env t.cfg s (sub s.volume prev_volume))),
        record t { cache = Dict.put t.cache (cache_key s) (s.volume, time) },
      )
  unfolding handle_sample
  in_order_step t s time prev_time prev_volume ungated parsed cached ordered = ground arith

  -- The volumes that the transformer emits for the samples, added to the first argument.
  pub total : N → DeltaTransformer Time N → List (Sample N D) → N
  total acc t [] = acc
  total acc t (s ∷ ss) =
      let (result, t') = handle_sample env clock t s in total (counted acc result) t' ss

  -- The samples are of one key, and none is older than the one before it.
  abbrev pub InOrder : String → Time → List (Sample N D) → Type 0
  InOrder key prev_time [] = Unit
  InOrder key prev_time (s ∷ ss) =
      (time : Time) × (clock.parse_isotime s.timestamp ≡ ok time)
      × (cache_key s ≡ key)
      × (lt (clock.delta_seconds prev_time time) zero_volume ≡ false)
      × InOrder key time ss

  abbrev pub last_volume : N → List (Sample N D) → N
  last_volume v [] = v
  last_volume v (s ∷ ss) = last_volume s.volume ss

  module _ (restore : (a b : N) → env.numbers.add b (sub a b) ≡ a) where
    -- Without `growth_only`, over samples of one key in time order whose time stamps are parsed, the
    -- deltas that are emitted, added to the volume that the cache held before, give the volume of the
    -- last sample. That adding a difference to its second part gives the first is the hypothesis on
    -- numbers.
    pub total-last_volume :
        (key : String) (ss : List (Sample N D)) (t : DeltaTransformer Time N) (volume : N)
        (time : Time)
        → t.growth_only ≡ false
        → Dict.get t.cache key ≡ some (volume, time)
        → InOrder key time ss
        → total volume t ss ≡ last_volume volume ss
    unfolding total
    total-last_volume key [] t volume time ungated cached h = refl
    total-last_volume key (s ∷ ss) t volume time ungated cached
          (now, parsed, same, ordered, later) =
        let step = in_order_step t s now time volume ungated parsed (rw same cached) ordered in
        let found : Dict.get (Dict.put t.cache (cache_key s) (s.volume, now)) key
            ≡ some (s.volume, now) =
          ground (
            arith,
            Dict.get-put t.cache (cache_key s) key (s.volume, now),
            ==_iff (cache_key s) key,
          ) in
        rw (total, step)
          (rw (delta_volume t.cfg s (sub s.volume volume) volume, restore s.volume volume)
            (total-last_volume key ss
              (record t { cache = Dict.put t.cache (cache_key s) (s.volume, now) }) s.volume now
              ungated found later))
