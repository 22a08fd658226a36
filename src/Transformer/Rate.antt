-- ===== src/Transformer/Rate.antt =====
-- ceilometer/transformer/conversions.py: `RateOfChangeTransformer`.
pub mod Order
use stx_ceilometer.Prelude.{
  ℕ, zero, suc, ◌+◌, ◌-◌, ◌*◌, ◌≤◌, ◌<◌, String, ◌≡◌, ◌≢◌, refl, sym, ap, ◌∙◌, subst, Bool, true,
  false, not, ◌&&◌, ◌||◌, ◌↔◌, ◌⊎◌, inl, inr, Option, none, some, List, [], ◌∷◌, ◌++◌, map,
  append-nil, append_assoc, arith, Result, ok, raise, Exception, ◌>>=◌, ◌>>◌, >>=-eq-ok,
  if◌then◌else◌, Bool-cases, Option-cases, ◌==◌, ==_iff, ==_refl, length, contains, All, IsUnique,
  string_eq, ltb, leb, any, all, filter, is_empty,
}
use stx_ceilometer.Prelude.Dict
use stx_ceilometer.Sample.{Arithmetic, Sample, type_cumulative}
use stx_ceilometer.Transformer.Conversion.{Env, Scale, expression, factor, ConversionCfg, convert}
use stx_ceilometer.Transformer.Delta.{Clock, cache_key}

-- The volume, the time stamp and the monotonic time of the last sample of a key.
pub record Previous (Time N : Type 0) : Type 0 where
  pub volume : N
  pub timestamp : Time
  pub monotonic_time : Option N

pub record RateOfChangeTransformer (Time N : Type 0) : Type 0 where
  pub cfg : ConversionCfg N
  pub cache : List (String × Previous Time N)

-- `self.scale = self.scale or '1'`
unfoldable pub scale_or_one : {N : Type 0} → Arithmetic N → Option (Scale N) → Option (Scale N)
scale_or_one numbers none = some (expression "1")
scale_or_one numbers (some (factor n)) =
    if numbers.is_zero n then some (expression "1") else some (factor n)
scale_or_one numbers (some (expression e)) =
    if e == "" then some (expression "1") else some (expression e)

unfoldable pub rate_of_change_transformer :
    {Time N : Type 0} → Arithmetic N → ConversionCfg N → RateOfChangeTransformer Time N
unfolding scale_or_one
rate_of_change_transformer numbers cfg = record {
  cfg = record cfg { scale = scale_or_one numbers cfg.scale };
  cache = [];
}

module _ {Time N D : Type 0} (env : Env N D) (clock : Clock Time N) where
  open env.numbers use {zero as zero_volume, one, sub, mul, div, lt, le, is_zero}

  -- The monotonic times are preferred where both samples have one.
  unfoldable pub time_delta : Option N → Option N → Time → Time → N
  time_delta (some prev_mono) (some mono) prev_time time = sub mono prev_mono
  time_delta _ _ prev_time time = clock.delta_seconds prev_time time

  -- For a cumulative meter a smaller volume means that the counter was reset.
  unfoldable pub volume_delta : Sample N D → N → N
  volume_delta s prev_volume =
      if le prev_volume s.volume || not (s.type == type_cumulative)
      then sub s.volume prev_volume
      else s.volume

  unfoldable pub rate : N → N → N
  rate growth seconds = if is_zero seconds then zero_volume else div (mul one growth) seconds

  -- What the cache takes for a sample.
  abbrev pub entry_of : Sample N D → Time → Previous Time N
  entry_of s time = record {
    volume = s.volume;
    timestamp = time;
    monotonic_time = s.monotonic_time;
  }

  emit :
      Result (Sample N D)
      → RateOfChangeTransformer Time N
      → Result (Option (Sample N D)) × RateOfChangeTransformer Time N
  emit (raise e) t = (raise e, t)
  emit (ok out) t = (ok (some out), t)

  with_previous :
      Option (Previous Time N)
      → RateOfChangeTransformer Time N
      → Sample N D
      → Time
      → Result (Option (Sample N D)) × RateOfChangeTransformer Time N
  unfolding emit time_delta volume_delta rate
  with_previous none t s time =
      (ok none, record t { cache = Dict.put t.cache (cache_key s) (entry_of s time) })
  with_previous (some prev) t s time =
      let cache = Dict.put t.cache (cache_key s) (entry_of s time) in
      let seconds = time_delta prev.monotonic_time s.monotonic_time prev.timestamp time in
      if lt seconds zero_volume
      then (ok none, record t { cache = Dict.put cache (cache_key s) prev })
      else emit (convert env t.cfg (rate (volume_delta s prev.volume) seconds) s)
          (record t { cache = cache })

  at_time :
      Result Time
      → RateOfChangeTransformer Time N
      → Sample N D
      → Result (Option (Sample N D)) × RateOfChangeTransformer Time N
  unfolding with_previous
  at_time (raise e) t s = (raise e, t)
  at_time (ok time) t s = with_previous (Dict.get t.cache (cache_key s)) t s time

  unfoldable pub handle_sample :
      RateOfChangeTransformer Time N
      → Sample N D
      → Result (Option (Sample N D)) × RateOfChangeTransformer Time N
  unfolding at_time
  handle_sample t s = at_time (clock.parse_isotime s.timestamp) t s
