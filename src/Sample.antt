-- ===== src/Sample.antt =====
-- ceilometer/sample.py: `Sample`. The type of volumes and that of metadata are parameters. The field
-- `id`, a fresh UUID that none of the modelled code reads, is left out.
use stx_ceilometer.Prelude.{String, Bool, Option, none, ℕ}

-- What the program does with volumes: integers and floats of Python, mixed.
pub record Arithmetic (N : Type 0) : Type 0 where
  pub zero : N
  pub one : N
  pub add : N → N → N
  pub sub : N → N → N
  pub mul : N → N → N
  pub div : N → N → N
  pub lt : N → N → Bool
  pub le : N → N → Bool
  pub is_zero : N → Bool
  pub of_ℕ : ℕ → N

pub record Sample (N D : Type 0) : Type 0 where
  pub name : String
  pub type : String
  pub unit : String
  pub volume : N
  pub user_id : Option String
  pub project_id : Option String
  pub resource_id : String
  pub timestamp : String
  pub resource_metadata : D
  pub source : String
  pub monotonic_time : Option N

abbrev pub type_gauge : String
type_gauge = "gauge"

abbrev pub type_delta : String
type_delta = "delta"

abbrev pub type_cumulative : String
type_cumulative = "cumulative"

-- `sample.Sample(…)` as the transformers call it: source and monotonic time are not given.
unfoldable pub derive :
    {N D : Type 0} → String → (name type unit : String) → N → Sample N D → Sample N D
derive source_default name type unit volume s = record s {
  name = name;
  type = type;
  unit = unit;
  volume = volume;
  source = source_default;
  monotonic_time = none;
}
