-- ===== src/Transformer/Conversion.antt =====
-- ceilometer/transformer/conversions.py: `BaseConversionTransformer` and `ScalingTransformer`. `re.sub`
-- and `eval` of a configured expression are parameters.
pub mod Scaling
use stx_ceilometer.Prelude.{
  or_else, ℕ, zero, suc, ◌+◌, ◌-◌, ◌*◌, ◌≤◌, ◌<◌, String, ◌≡◌, ◌≢◌, refl, sym, ap, ◌∙◌, subst, Bool,
  true, false, not, ◌&&◌, ◌||◌, ◌↔◌, ◌⊎◌, inl, inr, Option, none, some, List, [], ◌∷◌, ◌++◌, map,
  append-nil, append_assoc, arith, Result, ok, raise, Exception, ◌>>=◌, ◌>>◌, >>=-eq-ok,
  if◌then◌else◌, Bool-cases, Option-cases, ◌==◌, ==_iff, ==_refl, length, contains, All, IsUnique,
  string_eq, ltb, leb, any, all, filter, is_empty,
}
use stx_ceilometer.Sample.{Arithmetic, Sample, derive}

pub record Env (N D : Type 0) : Type 0 where
  pub numbers : Arithmetic N
  pub re_sub : String → String → String → Result String
  pub eval : String → Sample N D → Result N
  pub source_default : String

pub data Scale (N : Type 0) : Type 0 where
  factor : N → Scale N
  expression : String → Scale N

-- `self.source` and `self.target`: a key that is not there is `none`.
pub record ConversionCfg (N : Type 0) : Type 0 where
  pub source_unit : Option String
  pub map_from_name : Option String
  pub map_from_unit : Option String
  pub map_to_name : Option String
  pub map_to_unit : Option String
  pub target_name : Option String
  pub target_unit : Option String
  pub target_type : Option String
  pub scale : Option (Scale N)
  pub max : Option N

-- `mapped or fallback`; the `except` leaves `mapped` at None.
abbrev mapped_or : Result String → String → String
mapped_or (raise e) fallback = fallback
mapped_or (ok mapped) fallback = if mapped == "" then fallback else mapped

module _ {N D : Type 0} (env : Env N D) where
  -- `_map(s, attr)`, given the attribute's entries of the four dicts and its value. Both patterns must
  -- be there and not be empty.
  unfoldable pub map_attr : (from to target : Option String) → String → String
  map_attr (some from) (some to) target value =
      if from == "" || to == ""
      then or_else target value
      else mapped_or (env.re_sub from to value) (or_else target value)
  map_attr _ _ target value = or_else target value

  abbrev pub map_name : ConversionCfg N → Sample N D → String
  map_name cfg s = map_attr cfg.map_from_name cfg.map_to_name cfg.target_name s.name

  abbrev pub map_unit : ConversionCfg N → Sample N D → String
  map_unit cfg s = map_attr cfg.map_from_unit cfg.map_to_unit cfg.target_unit s.unit

  -- `_scale`: a factor of zero and an empty expression are no scale.
  unfoldable pub scale : Option (Scale N) → Sample N D → Result N
  scale none s = ok s.volume
  scale (some (factor n)) s =
      if env.numbers.is_zero n then ok s.volume else ok (env.numbers.mul s.volume n)
  scale (some (expression e)) s = if e == "" then ok s.volume else env.eval e s

  -- `min(volume, self.max) if self.max else volume`
  unfoldable pub clamp : Option N → N → N
  clamp none volume = volume
  clamp (some m) volume =
      if env.numbers.is_zero m then volume else if env.numbers.lt m volume then m else volume

  -- `_convert(s, growth)` of a scaling transformer
  unfoldable pub convert : ConversionCfg N → N → Sample N D → Result (Sample N D)
  unfolding scale clamp
  convert cfg growth s = do
    scaled ← scale cfg.scale s
    ok (
        derive env.source_default (map_name cfg s) (or_else cfg.target_type s.type) (map_unit cfg s)
          (clamp cfg.max (env.numbers.mul scaled growth)) s)

  unfoldable pub handle_scaling : ConversionCfg N → Sample N D → Result (Option (Sample N D))
  unfolding convert
  handle_scaling cfg s =
      if or_else cfg.source_unit s.unit == s.unit
      then (do converted ← convert cfg env.numbers.one s; ok (some converted))
      else ok (some s)
