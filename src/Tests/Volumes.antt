-- ===== src/Tests/Volumes.antt =====
-- The transformers with integers as volumes and numbers of seconds as time stamps.
use stx_ceilometer.Prelude.{
  ℕ, String, ◌≡◌, refl, Bool, true, false, none, some, List, [], ◌∷◌, ◌++◌, map, Result, ok, raise,
  if◌then◌else◌, ◌==◌, string_eq,
}
use stx_ceilometer.Prelude.{zero_division_error}
use stx_ceilometer.Prelude.Dict
use stx_ceilometer.Prelude.Int.{ℤ, pos, ◌*ℤ◌, ◌-ℤ◌, ◌+ℤ◌}
use stx_ceilometer.Sample.{derive, Sample}
use stx_ceilometer.Transformer.Conversion.{Env, ConversionCfg, factor, convert, map_attr}
use stx_ceilometer.Transformer.Delta.{Clock, DeltaTransformer}
use stx_ceilometer.Transformer.Delta.Run.{total-last_volume, total, last_volume}
use stx_ceilometer.Transformer.Rate.{RateOfChangeTransformer, Previous}
use stx_ceilometer.Transformer.Accumulator.{Accumulator, accumulator}
use stx_ceilometer.Transformer.Accumulator
use stx_ceilometer.Transformer.Accumulator.Batches.{
  Call, handle, flush_call, run, handled, held, run-conserves,
}
use stx_ceilometer.Transformer.Aggregator.{Aggregator, aggregator, unique_key, count_of, is_due}
use stx_ceilometer.Transformer.Aggregator
use stx_ceilometer.Transformer.Aggregator.Averages.{mean, emptied, flush-means, flush-stuck}
use stx_ceilometer.Transformer.Aggregator.Counts.{IsCounted, handle_sample-IsCounted}
use stx_ceilometer.Tests.Numbers.{integers, integers-restore}

abbrev env : Env ℤ ℕ
env = record {
  numbers = integers;
  re_sub = λ from to value. ok to;
  eval = λ e s. ok s.volume;
  source_default = "openstack";
}

-- Three time stamps, in seconds.
abbrev parse : String → Result ℤ
parse s = if s == "t1" then ok (pos 1) else if s == "t2" then ok (pos 2) else ok (pos 4)

abbrev clock : Clock ℤ ℤ
clock = record { parse_isotime = parse; delta_seconds = λ before after. after -ℤ before }

abbrev cfg : ConversionCfg ℤ
cfg = record {
  source_unit = none;
  map_from_name = none;
  map_from_unit = none;
  map_to_name = none;
  map_to_unit = none;
  target_name = none;
  target_unit = none;
  target_type = none;
  scale = some (factor (pos 2));
  max = some (pos 10);
}

abbrev sample_at : String → String → ℕ → Sample ℤ ℕ
sample_at type timestamp volume = record {
  name = "cpu";
  type = type;
  unit = "ns";
  volume = pos volume;
  user_id = none;
  project_id = some "p";
  resource_id = "r";
  timestamp = timestamp;
  resource_metadata = 0;
  source = "openstack";
  monotonic_time = none;
}

-- What a scaling transformer makes of a sample.
abbrev scaled : ℕ → Sample ℤ ℕ
scaled volume = sample_at "gauge" "t1" volume

-- The cache holds a volume of 5 of the meter at the second time stamp.
abbrev deltas : Bool → DeltaTransformer ℤ ℤ
deltas growth_only = record {
  cfg = cfg;
  growth_only = growth_only;
  cache = ("cpur", (pos 5, pos 2)) ∷ [];
}

abbrev grown : Sample ℤ ℕ
grown = record (sample_at "delta" "t4" 4) { name = "cpu" }

abbrev ordered : List (Sample ℤ ℕ)
ordered =
    sample_at "cumulative" "t2" 9
    ∷ sample_at "cumulative" "t4" 2
    ∷ sample_at "cumulative" "t4" 12
    ∷ []

total-last_volume_example :
    total env clock (pos 5) (deltas false) ordered ≡ last_volume env clock (pos 5) ordered
unfolding Dict.get ◌-ℤ◌
total-last_volume_example =
    total-last_volume env clock integers-restore "cpur" ordered (deltas false) (pos 5) (pos 2) refl
      refl (pos 2, refl, refl, refl, (pos 4, refl, refl, refl, (pos 4, refl, refl, refl, tt)))

-- The last sample of the meter was taken at monotonic time 20.
abbrev previous : Previous ℤ ℤ
previous = record { volume = pos 5; timestamp = pos 2; monotonic_time = some (pos 20) }

abbrev rates : RateOfChangeTransformer ℤ ℤ
rates = record { cfg = cfg; cache = ("cpur", previous) ∷ [] }

-- Newer by its time stamp, and older by its monotonic time.
abbrev stale : Sample ℤ ℕ
stale = record (sample_at "cumulative" "t4" 3) { monotonic_time = some (pos 10) }

abbrev batch : Accumulator ℕ
batch = record { size = pos 2; samples = some (1 ∷ []) }

abbrev calls : List (Call ℕ)
calls = flush_call ∷ handle 2 ∷ flush_call ∷ handle 3 ∷ []

run-conserves_example : (run batch calls).0 ++ held (run batch calls).1 ≡ (1 ∷ []) ++ handled calls
run-conserves_example = run-conserves calls batch (1 ∷ []) refl refl

batches_out : run batch calls ≡ (1 ∷ 2 ∷ [], record { size = pos 2; samples = some (3 ∷ []) })
unfolding run Accumulator.flush Accumulator.handle_sample
batches_out = refl

-- An aggregator of gauges of size 2.
abbrev empty : ConversionCfg ℤ → Aggregator ℤ ℤ ℕ
unfolding aggregator
empty c = aggregator c (some (pos 2)) none none none none none

abbrev aggregate : ConversionCfg ℤ → Aggregator ℤ ℤ ℕ
aggregate c =
    let one = (Aggregator.handle_sample env parse 0 (empty c) (sample_at "gauge" "t1" 3)).1 in
    (Aggregator.handle_sample env parse 0 one (sample_at "gauge" "t2" 4)).1

handle_sample-IsCounted_example :
    IsCounted (Aggregator.handle_sample env parse 0 (empty cfg) (sample_at "gauge" "t1" 3)).1
unfolding aggregator
handle_sample-IsCounted_example =
    handle_sample-IsCounted env parse 0 (empty cfg) (sample_at "gauge" "t1" 3) (refl, refl) tt

abbrev never : ℤ → ℤ → Bool
never time retention = false

-- Both samples came in: their volumes are doubled and added.
abbrev full : ConversionCfg ℤ → String → Aggregator ℤ ℤ ℕ
full c name = record (empty c) {
  samples = ("cpu-r-p-<undefined>", record (sample_at "gauge" "t1" 14) { name = name }) ∷ [];
  counts = ("cpu-r-p-<undefined>", 2) ∷ [];
  aggregated_samples = 2;
  initial_timestamp = some (pos 1);
}

abbrev renaming : ConversionCfg ℤ
renaming = record cfg { target_name = some "cpu_util" }

reaches_full : aggregate cfg ≡ full cfg "cpu"
unfolding Aggregator.handle_sample aggregator derive map_attr ◌*ℤ◌ Dict.get convert Dict.put
    unique_key ◌+ℤ◌ count_of
reaches_full = refl

reaches_renamed : aggregate renaming ≡ full renaming "cpu_util"
unfolding Aggregator.handle_sample aggregator derive map_attr ◌*ℤ◌ Dict.get convert Dict.put
    unique_key ◌+ℤ◌ count_of
reaches_renamed = refl

flush-means_example : Aggregator.flush integers never (full cfg "cpu") ≡ (
  ok (map (mean integers never (full cfg "cpu")) (full cfg "cpu").samples),
  emptied integers never (full cfg "cpu"),
)
unfolding aggregator unique_key count_of is_due Dict.get
flush-means_example = flush-means integers never (full cfg "cpu") (pos 1) refl refl refl

flush-stuck_example :
    ((Aggregator.flush integers never (full renaming "cpu_util")).0 ≡ raise zero_division_error)
    × (is_due integers never (Aggregator.flush integers never (full renaming "cpu_util")).1 (pos 1)
        ≡ true)
    × ((Aggregator.flush integers never (full renaming "cpu_util")).1.counts
        ≡ (full renaming "cpu_util").counts)
    × ((Aggregator.flush integers never (full renaming "cpu_util")).1.initial_timestamp
        ≡ some (pos 1))
unfolding aggregator unique_key count_of is_due Dict.get
flush-stuck_example = flush-stuck integers never (full renaming "cpu_util") (pos 1) refl refl refl
