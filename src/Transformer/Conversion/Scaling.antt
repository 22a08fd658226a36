-- ===== src/Transformer/Conversion/Scaling.antt =====
-- Bounds of the samples of a scaling transformer of ceilometer/transformer/conversions.py.
use stx_ceilometer.Prelude.{◌≡◌, false, some, arith, ok, >>=-eq-ok, string_eq}
use stx_ceilometer.Sample.{Sample, derive}
use stx_ceilometer.Transformer.Conversion.{Env, ConversionCfg, clamp, convert, scale}

module _ {N D : Type 0} (env : Env N D) (irreflexive : (n : N) → env.numbers.lt n n ≡ false) where
  clamp-le :
      (m volume : N)
      → env.numbers.is_zero m ≡ false
      → env.numbers.lt m (clamp env (some m) volume) ≡ false
  unfolding clamp
  clamp-le m volume nonzero = ground (arith, irreflexive m)

  -- A sample that a scaling transformer converts is not over the configured maximum, if that is not
  -- zero; it keeps its resource, its user, its project and its timestamp.
  convert-bounded :
      (cfg : ConversionCfg N) (growth m : N) (s out : Sample N D)
      → convert env cfg growth s ≡ ok out
      → cfg.max ≡ some m
      → env.numbers.is_zero m ≡ false
      → (env.numbers.lt m out.volume ≡ false)
        × (out.resource_id ≡ s.resource_id)
        × (out.user_id ≡ s.user_id)
        × (out.project_id ≡ s.project_id)
        × (out.timestamp ≡ s.timestamp)
  unfolding convert derive
  convert-bounded cfg growth m s out h is_max nonzero =
      let (scaled, _, made) = >>=-eq-ok (scale env cfg.scale s) _ h in
      let volume = env.numbers.mul scaled growth in
      let bounded : env.numbers.lt m (clamp env cfg.max volume) ≡ false =
        rw is_max (clamp-le m volume nonzero) in
      ground arith
