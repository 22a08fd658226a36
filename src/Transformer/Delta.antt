-- ===== src/Transformer/Delta.antt =====
-- ceilometer/transformer/conversions.py: `DeltaTransformer`. Time stamps are parsed by oslo_utils,
-- which also gives the seconds between two of them.
pub mod Run
use Prim.Native.String.{◌++◌ as concat}
use stx_ceilometer.Prelude.{
  ℕ, zero, suc, ◌+◌, ◌-◌, ◌*◌, ◌≤◌, ◌<◌, String, ◌≡◌, ◌≢◌, refl, sym, ap, ◌∙◌, subst, Bool, true,
  false, not, ◌&&◌, ◌||◌, ◌↔◌, ◌⊎◌, inl, inr, Option, none, some, List, [], ◌∷◌, ◌++◌, map,
  append-nil, append_assoc, arith, Result, ok, raise, Exception, ◌>>=◌, ◌>>◌, >>=-eq-ok,
  if◌then◌else◌, Bool-cases, Option-cases, ◌==◌, ==_iff, ==_refl, length, contains, All, IsUnique,
  string_eq, ltb, leb, any, all, filter, is_empty,
}
use stx_ceilometer.Prelude.Dict
use stx_ceilometer.Sample.{Arithmetic, Sample, type_delta, derive}
use stx_ceilometer.Transformer.Conversion.{Env, ConversionCfg, map_name}

pub record Clock (Time N : Type 0) : Type 0 where
  pub parse_isotime : String → Result Time
  pub delta_seconds : Time → Time → N

pub record DeltaTransformer (Time N : Type 0) : Type 0 where
  pub cfg : ConversionCfg N
  pub growth_only : Bool
  pub cache : List (String × (N × Time))

-- `s.name + s.resource_id`
abbrev pub cache_key : {N D : Type 0} → Sample N D → String
cache_key s = concat s.name s.resource_id

-- `_convert(s, delta)`
unfoldable pub convert_delta :
    {N D : Type 0} → Env N D → ConversionCfg N → Sample N D → N → Sample N D
convert_delta env cfg s delta =
    derive env.source_default (map_name env cfg s) type_delta s.unit delta s

module _ {Time N D : Type 0} (env : Env N D) (clock : Clock Time N) where
  -- `handle_sample` behind the parsing, by what the cache held for the sample's key.
  with_previous :
      Option (N × Time)
      → DeltaTransformer Time N
      → Sample N D
      → Time
      → Option (Sample N D) × DeltaTransformer Time N
  unfolding convert_delta
  with_previous none t s time =
      (none, record t { cache = Dict.put t.cache (cache_key s) (s.volume, time) })
  with_previous (some (prev_volume, prev_time)) t s time =
      let cache = Dict.put t.cache (cache_key s) (s.volume, time) in
      let delta = env.numbers.sub s.volume prev_volume in
      if env.numbers.lt (clock.delta_seconds prev_time time) env.numbers.zero
      then (none, record t { cache = Dict.put cache (cache_key s) (prev_volume, prev_time) })
      else if t.growth_only && env.numbers.lt delta env.numbers.zero
      then (none, record t { cache = cache })
      else (some (convert_delta env t.cfg s delta), record t { cache = cache })

  at_time :
      Result Time
      → DeltaTransformer Time N
      → Sample N D
      → Result (Option (Sample N D)) × DeltaTransformer Time N
  unfolding with_previous
  at_time (raise e) t s = (raise e, t)
  at_time (ok time) t s =
      let (out, t') = with_previous (Dict.get t.cache (cache_key s)) t s time in (ok out, t')

  unfoldable pub handle_sample :
      DeltaTransformer Time N → Sample N D → Result (Option (Sample N D)) × DeltaTransformer Time N
  unfolding at_time
  handle_sample t s = at_time (clock.parse_isotime s.timestamp) t s
