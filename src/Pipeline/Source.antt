-- ===== src/Pipeline/Source.antt =====
-- ceilometer/pipeline.py: `Source`, `PipelineSource`, `EventSource`, `SampleSource` and
-- `PollingSource`. `fnmatch` of oslo_utils is a parameter.
pub mod Patterns
pub mod Support
pub mod Sinks
use Prim.Native.Char.{code}
use stx_ceilometer.Prelude.{
  ℕ, String, Bool, true, false, not, ◌&&◌, ◌||◌, Option, none, some, List, [], ◌∷◌, all, is_empty,
  contains, pipeline_exception, index_error, Result, ok, raise, ◌>>=◌, ◌>>◌, require, if◌then◌else◌,
  ◌==◌, nat_eq, string_eq, nothing_specified, included_and_excluded, included_with_wildcard,
  name_missing, sinks_missing, meters_missing, no_sink_defined, dangling_sink, interval_missing,
  interval_invalid, interval_not_positive, resources_not_list, discovery_not_list, Message,
}
use stx_ceilometer.Prelude.Int.{ℤ, pos, leb_ℤ}

-- `x[0]`: an empty string raises IndexError.
pub first : String → Result ℕ
first String.[] = raise index_error
first (String.◌∷◌ c s) = ok (code c)

-- `x[1:]`
unfoldable pub rest : String → String
rest String.[] = String.[]
rest (String.◌∷◌ c s) = s

-- `c == '!'` and `c not in '!*'`, of one character
abbrev pub is_bang : ℕ → Bool
is_bang c = c == b'!'

abbrev pub is_plain : ℕ → Bool
is_plain c = not (c == b'!' || c == b'*')

-- Whether `[x for x in data if test(x[0])]` has an element. The list is built to its end, so an
-- empty string raises wherever it stands.
pub some_first : (ℕ → Bool) → List String → Result Bool
unfolding first
some_first test [] = ok false
some_first test (x ∷ xs) = do c ← first x; later ← some_first test xs; ok (test c || later)

-- `if test: raise PipelineException(message)`
abbrev pub refuse_if : Message → Bool → Result (Unit {0})
refuse_if m true = raise (pipeline_exception m)
refuse_if m false = ok tt

-- `a and b` of two conditions of which the second may raise
abbrev pub and_also : Bool → Result Bool → Result Bool
and_also true r = r
and_also false r = ok false

check_patterns : List String → Result (Unit {0})
check_patterns patterns = do
  included ← some_first is_plain patterns
  mixed ← and_also included (some_first is_bang patterns)
  refuse_if included_and_excluded mixed
  overlaid ← and_also (contains patterns "*") (some_first is_plain patterns)
  refuse_if included_with_wildcard overlaid

unfoldable pub check_source_filtering : Option (List String) → Result (Unit {0})
unfolding check_patterns some_first
check_source_filtering none = raise (pipeline_exception nothing_specified)
check_source_filtering (some []) = raise (pipeline_exception nothing_specified)
check_source_filtering (some (x ∷ xs)) = check_patterns (x ∷ xs)

-- `any(…)` over a generator: stops at the first element that passes the test.
pub any_result : (String → Result Bool) → List String → Result Bool
any_result test [] = ok false
any_result test (x ∷ xs) = do
  found ← test x
  let later = any_result test xs
  if found then ok true else later

abbrev pub starts_bang : String → Bool
starts_bang String.[] = false
starts_bang (String.◌∷◌ c s) = is_bang (code c)

module _ (fnmatch : String → String → Bool) where
  -- The conditions of the two generators of `is_supported`.
  pub denies : String → String → Result Bool
  unfolding first rest
  denies name x = do c ← first x; ok (is_bang c && fnmatch name (rest x))

  pub allows : String → String → Result Bool
  unfolding first
  allows name x = do c ← first x; ok (not (is_bang c) && fnmatch name x)

  unfoldable pub is_supported : List String → String → Result Bool
  unfolding any_result denies allows
  is_supported dataset name = do
    denied ← any_result (denies name) dataset
    if denied then ok false else do
      allowed ← any_result (allows name) dataset
      if allowed then ok true else ok (all starts_bang dataset)

-- What YAML gives where a list is wanted: a list of strings, or another value with its truth.
pub data Setting : Type 0 where
  items : List String → Setting
  scalar : Bool → Setting

-- What `int()` makes of the interval: an integer, or a ValueError.
pub data IntervalCfg : Type 0 where
  integer : ℤ → IntervalCfg
  invalid : IntervalCfg

-- A source's section of the configuration file; a key that is not there is `none`.
pub record SourceCfg : Type 0 where
  pub name : Option String
  pub sinks : Option (List String)
  pub meters : Option (List String)
  pub events : Option (List String)
  pub interval : Option IntervalCfg
  pub resources : Option Setting
  pub discovery : Option Setting

-- `EventSource` and `SampleSource`: `dataset` is the field `events` of one and `meters` of the other.
pub record PipelineSource : Type 0 where
  pub name : String
  pub sinks : List String
  pub dataset : List String

abbrev missing : {A : Type 0} → Message → Option A → Result A
missing m = require (pipeline_exception m)

-- `check_source_filtering` has refused a missing list, so the default is never read.
abbrev listed : Option (List String) → List String
listed none = []
listed (some xs) = xs

unfoldable pub event_source : SourceCfg → Result PipelineSource
event_source cfg = do
  name ← missing name_missing cfg.name
  sinks ← missing sinks_missing cfg.sinks
  check_source_filtering cfg.events
  ok (record { name = name; sinks = sinks; dataset = listed cfg.events })

unfoldable pub sample_source : SourceCfg → Result PipelineSource
sample_source cfg = do
  name ← missing name_missing cfg.name
  sinks ← missing sinks_missing cfg.sinks
  meters ← missing meters_missing cfg.meters
  check_source_filtering (some meters)
  ok (record { name = name; sinks = sinks; dataset = meters })

-- `for sink in self.sinks: if sink not in sinks: raise`
pub all_known : List String → List String → Result (Unit {0})
all_known known [] = ok tt
all_known known (s ∷ ss) =
    if contains known s then all_known known ss else raise (pipeline_exception dangling_sink)

unfoldable pub check_sinks : PipelineSource → List String → Result (Unit {0})
unfolding all_known
check_sinks source known = do
  refuse_if no_sink_defined (is_empty source.sinks)
  all_known known source.sinks

pub record PollingSource : Type 0 where
  pub name : String
  pub meters : List String
  pub interval : ℤ
  pub resources : List String
  pub discovery : List String

abbrev int : IntervalCfg → Result ℤ
int (integer i) = ok i
int invalid = raise (pipeline_exception interval_invalid)

-- `cfg.get(key) or []`, then the test that it is a list
abbrev list_or_empty : Message → Option Setting → Result (List String)
list_or_empty m none = ok []
list_or_empty m (some (items xs)) = ok xs
list_or_empty m (some (scalar true)) = raise (pipeline_exception m)
list_or_empty m (some (scalar false)) = ok []

unfoldable pub polling_source : SourceCfg → Result PollingSource
polling_source cfg = do
  name ← missing name_missing cfg.name
  meters ← missing meters_missing cfg.meters
  given ← missing interval_missing cfg.interval
  interval ← int given
  refuse_if interval_not_positive (leb_ℤ interval (pos 0))
  resources ← list_or_empty resources_not_list cfg.resources
  discovery ← list_or_empty discovery_not_list cfg.discovery
  check_source_filtering (some meters)
  ok (record {
    name = name;
    meters = meters;
    interval = interval;
    resources = resources;
    discovery = discovery;
  })

-- `support_event` and `support_meter`
module _ (fnmatch : String → String → Bool) where
  unfoldable pub support : PipelineSource → String → Result Bool
  support source name = is_supported fnmatch source.dataset name

  unfoldable pub support_meter : PollingSource → String → Result Bool
  support_meter source name = is_supported fnmatch source.meters name
