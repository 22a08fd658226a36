-- ===== src/Transformer/Rate/Order.antt =====
-- What a `RateOfChangeTransformer` of ceilometer/transformer/conversions.py does about time and resets.
use stx_ceilometer.Prelude.{String, ◌≡◌, true, false, none, some, arith, ok, ==_iff, string_eq}
use stx_ceilometer.Prelude.Dict
use stx_ceilometer.Sample.{Sample, type_cumulative}
use stx_ceilometer.Transformer.Conversion.{Env}
use stx_ceilometer.Transformer.Delta.{Clock, cache_key}
use stx_ceilometer.Transformer.Rate.{
  Previous, RateOfChangeTransformer, time_delta, volume_delta, entry_of, handle_sample,
}

module _ {Time N D : Type 0} (env : Env N D) (clock : Clock Time N) where
  open env.numbers use {zero as zero_volume, sub, lt, le}

  -- A sample that is older than the last one of its key, by the monotonic times if both have one and
  -- by the time stamps otherwise, is dropped, and the cache answers for every key as before.
  handle_sample-out_of_time_order :
      (t : RateOfChangeTransformer Time N) (s : Sample N D) (time : Time) (prev : Previous Time N)
      → clock.parse_isotime s.timestamp ≡ ok time
      → Dict.get t.cache (cache_key s) ≡ some prev
      → lt
          (time_delta env clock prev.monotonic_time s.monotonic_time prev.timestamp time)
          zero_volume
        ≡ true
      → ((handle_sample env clock t s).0 ≡ ok none)
        × ((key : String)
            → Dict.get (handle_sample env clock t s).1.cache key ≡ Dict.get t.cache key)
  unfolding handle_sample
  handle_sample-out_of_time_order t s time prev parsed cached older =
      let key_of = cache_key s in
      let written = Dict.put t.cache key_of (entry_of env clock s time) in
      (
        ground arith,
        λ key. ground (
          arith,
          Dict.get-put written key_of key prev,
          Dict.get-put t.cache key_of key (entry_of env clock s time),
          ==_iff key_of key,
        ),
      )

  -- The growth of a cumulative meter is never negative, also over a reset of the counter, if its
  -- volumes are not and a difference is not negative where the order says so.
  volume_delta-not_negative :
      (s : Sample N D) (prev_volume : N)
      → ((a b : N) → le b a ≡ true → lt (sub a b) zero_volume ≡ false)
      → s.type ≡ type_cumulative
      → lt s.volume zero_volume ≡ false
      → lt (volume_delta env clock s prev_volume) zero_volume ≡ false
  unfolding volume_delta
  volume_delta-not_negative s prev_volume difference cumulative positive =
      ground (arith, difference s.volume prev_volume, ==_iff s.type type_cumulative)
