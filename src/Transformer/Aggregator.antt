-- ===== src/Transformer/Aggregator.antt =====
-- ceilometer/transformer/conversions.py: `AggregatorTransformer`. `is_older_than` of oslo_utils, which
-- reads the clock, is a parameter. `counts` is a defaultdict: a key that is not there counts 0, and
-- reading it, which stores that 0, is not modelled as a change.
pub mod Averages
pub mod Counts
use Prim.Native.String.{◌++◌ as concat}
use stx_ceilometer.Prelude.{
  or_else, ℕ, zero, suc, ◌+◌, ◌-◌, ◌*◌, ◌≤◌, ◌<◌, String, ◌≡◌, ◌≢◌, refl, sym, ap, ◌∙◌, subst, Bool,
  true, false, not, ◌&&◌, ◌||◌, ◌↔◌, ◌⊎◌, inl, inr, Option, none, some, List, [], ◌∷◌, ◌++◌, map,
  append-nil, append_assoc, arith, Result, ok, raise, Exception, ◌>>=◌, ◌>>◌, >>=-eq-ok,
  if◌then◌else◌, Bool-cases, Option-cases, ◌==◌, ==_iff, ==_refl, length, contains, All, IsUnique,
  string_eq, ltb, leb, any, all, filter, is_empty, nat_eq,
}
use stx_ceilometer.Prelude.{zero_division_error}
use stx_ceilometer.Prelude.Dict
use stx_ceilometer.Prelude.Int.{ℤ, pos, leb_ℤ}
use stx_ceilometer.Sample.{Arithmetic, Sample, type_cumulative, type_gauge}
use stx_ceilometer.Transformer.Conversion.{Env, ConversionCfg, convert, scale}

-- What becomes of an attribute of merged samples. `by_key` makes it part of the key.
pub data Merge : Type 0 where
  by_key keep_first keep_last dropped : Merge

-- `_init_attribute(name, value, is_droppable, mandatory)`
unfoldable pub init_attribute : Option String → Bool → Bool → Merge
init_attribute none is_droppable mandatory = if mandatory then keep_last else by_key
init_attribute (some value) is_droppable mandatory =
    if not mandatory && value == ""
    then by_key
    else if value == "first"
    then keep_first
    else if is_droppable && value == "drop"
    then dropped
    else keep_last

-- `size` and `retention_time` are None or not zero; `__init__` gives size 1 if both are None.
pub record Aggregator (Time N D : Type 0) : Type 0 where
  pub cfg : ConversionCfg N
  pub samples : List (String × Sample N D)
  pub counts : List (String × ℕ)
  pub size : Option ℤ
  pub retention_time : Option N
  pub last_timestamp : Bool
  pub initial_timestamp : Option Time
  pub aggregated_samples : ℕ
  pub project_id : Merge
  pub user_id : Merge
  pub resource_metadata : Merge

abbrev one_if_both_none : {N : Type 0} → Option ℤ → Option N → Option ℤ
one_if_both_none none none = some (pos 1)
one_if_both_none size retention_time = size

unfoldable pub aggregator :
    {Time N D : Type 0}
    → ConversionCfg N
    → Option ℤ
    → Option N
    → (project_id user_id resource_metadata timestamp : Option String) → Aggregator Time N D
unfolding init_attribute
aggregator cfg size retention_time project_id user_id resource_metadata timestamp = record {
  cfg = cfg;
  samples = [];
  counts = [];
  size = one_if_both_none size retention_time;
  retention_time = retention_time;
  last_timestamp = or_else timestamp "first" == "last";
  initial_timestamp = none;
  aggregated_samples = 0;
  project_id = init_attribute project_id false false;
  user_id = init_attribute user_id false false;
  resource_metadata = init_attribute resource_metadata true true;
}

-- `"-".join(keys)` of the attributes that are part of the key
abbrev join_keys : Merge → Merge → (project_id user_id : String) → String
join_keys by_key by_key p u = concat p (concat "-" u)
join_keys by_key _ p u = p
join_keys _ by_key p u = u
join_keys _ _ p u = ""

module _ {Time N D : Type 0} where
  -- `_get_unique_key(s)`
  unfoldable pub unique_key : Aggregator Time N D → Sample N D → String
  unique_key t s =
      let keys =
        join_keys t.project_id t.user_id (or_else s.project_id "<undefined>")
          (or_else s.user_id "<undefined>") in
      concat s.name (concat "-" (concat s.resource_id (concat "-" keys)))

  unfoldable pub count_of : Aggregator Time N D → String → ℕ
  count_of t key = or_else (Dict.get t.counts key) 0

abbrev last_of : {A : Type 0} → Merge → A → A → A
last_of keep_last held new = new
last_of _ held new = held

-- `{}` where the metadata are dropped
abbrev first_metadata : {D : Type 0} → D → Merge → D → D
first_metadata no_metadata dropped metadata = no_metadata
first_metadata no_metadata _ metadata = metadata

module _ {Time N D : Type 0} (env : Env N D) (parse_isotime : String → Result Time)
    (no_metadata : D) where
  -- The first sample of a key.
  add_new :
      String
      → Result (Sample N D)
      → Aggregator Time N D
      → Result (Option (Sample N D)) × Aggregator Time N D
  add_new key (raise e) t = (raise e, t)
  add_new key (ok converted) t =
      let kept : Sample N D = record converted {
        resource_metadata =
            first_metadata no_metadata t.resource_metadata converted.resource_metadata;
      } in
      (ok none, record t { samples = Dict.put t.samples key kept })

  -- The volume behind a further sample of the key, given what `_scale` makes of it.
  merged_volume : Sample N D → Sample N D → N → N
  merged_volume held s scaled =
      if s.type == type_cumulative then scaled else env.numbers.add held.volume scaled

  -- A further sample of a key, with the time stamp set already.
  merge :
      String
      → Sample N D
      → Sample N D
      → Result N
      → Aggregator Time N D
      → Result (Option (Sample N D)) × Aggregator Time N D
  unfolding merged_volume
  merge key held s (raise e) t = (raise e, record t { samples = Dict.put t.samples key held })
  merge key held s (ok scaled) t =
      let held' : Sample N D = record held {
        volume = merged_volume held s scaled;
        project_id = last_of t.project_id held.project_id s.project_id;
        user_id = last_of t.user_id held.user_id s.user_id;
        resource_metadata = last_of t.resource_metadata held.resource_metadata s.resource_metadata;
      } in
      (ok none, record t { samples = Dict.put t.samples key held' })

  add_sample :
      String
      → Option (Sample N D)
      → Sample N D
      → Aggregator Time N D
      → Result (Option (Sample N D)) × Aggregator Time N D
  unfolding add_new merge
  add_sample key none s t = add_new key (convert env t.cfg env.numbers.one s) t
  add_sample key (some held) s t =
      let stamped : Sample N D = record held {
        timestamp = if t.last_timestamp then s.timestamp else held.timestamp;
      } in
      merge key stamped s (scale env t.cfg.scale s) t

  -- `handle_sample` behind the initial time stamp: the sample is counted first.
  count_and_add :
      Sample N D → Aggregator Time N D → Result (Option (Sample N D)) × Aggregator Time N D
  unfolding add_sample
  count_and_add s t =
      let key = unique_key t s in
      add_sample key (Dict.get t.samples key) s (record t {
        aggregated_samples = suc t.aggregated_samples;
        counts = Dict.put t.counts key (suc (count_of t key));
      })

  start :
      Option Time
      → Result Time
      → Sample N D
      → Aggregator Time N D
      → Result (Option (Sample N D)) × Aggregator Time N D
  unfolding count_and_add
  start (some time) parsed s t = count_and_add s t
  start none (raise e) s t = (raise e, t)
  start none (ok time) s t = count_and_add s (record t { initial_timestamp = some time })

  unfoldable pub handle_sample :
      Aggregator Time N D → Sample N D → Result (Option (Sample N D)) × Aggregator Time N D
  unfolding start
  handle_sample t s = start t.initial_timestamp (parse_isotime s.timestamp) s t

abbrev is_expired : {Time N : Type 0} → (Time → N → Bool) → Option N → Time → Bool
is_expired is_older_than none time = false
is_expired is_older_than (some retention) time = is_older_than time retention

abbrev is_full : Option ℤ → ℕ → Bool
is_full none n = false
is_full (some size) n = leb_ℤ size (pos n)

module _ {Time N D : Type 0} (numbers : Arithmetic N) (is_older_than : Time → N → Bool) where
  -- The loop over `x`: the volumes are written in place, so what was averaged before an exception
  -- stays averaged.
  average_all :
      Aggregator Time N D
      → List (String × Sample N D)
      → Result (Unit {0}) × List (String × Sample N D)
  average_all t [] = (ok tt, [])
  average_all t ((key, s) ∷ rest) =
      let count = count_of t (unique_key t s) in
      let (result, rest') = average_all t rest in
      let mean : Sample N D = record s { volume = numbers.div s.volume (numbers.of_ℕ count) } in
      if s.type == type_gauge
      then if count == 0
        then (raise zero_division_error, (key, s) ∷ rest)
        else (result, (key, mean) ∷ rest')
      else (result, (key, s) ∷ rest')

  -- `if full or expired`
  unfoldable pub is_due : Aggregator Time N D → Time → Bool
  is_due t time =
      is_full t.size t.aggregated_samples || is_expired is_older_than t.retention_time time

  release :
      Result (Unit {0}) × List (String × Sample N D)
      → Aggregator Time N D
      → Result (List (Sample N D)) × Aggregator Time N D
  release (raise e, entries) t = (raise e, record t { samples = entries })
  release (ok _, entries) t = (
    ok (map (λ entry. entry.1) entries),
    record t { samples = []; counts = []; aggregated_samples = 0; initial_timestamp = none },
  )

  flush_started :
      Option Time → Aggregator Time N D → Result (List (Sample N D)) × Aggregator Time N D
  unfolding is_due release average_all
  flush_started none t = (ok [], t)
  flush_started (some time) t =
      if is_due t time then release (average_all t t.samples) t else (ok [], t)

  unfoldable pub flush : Aggregator Time N D → Result (List (Sample N D)) × Aggregator Time N D
  unfolding flush_started
  flush t = flush_started t.initial_timestamp t
