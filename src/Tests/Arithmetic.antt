-- ===== src/Tests/Arithmetic.antt =====
-- The arithmetic transformer of an expression of two meters.
use stx_ceilometer.Prelude.{
  ℕ, String, ◌≡◌, refl, true, ◌↔◌, none, some, List, [], ◌∷◌, any, All, string_eq,
}
use stx_ceilometer.Sample.{Sample}
use stx_ceilometer.Transformer.Arithmetic.{
  plain_text, meter_name, Target, ArithmeticTransformer, arithmetic, escaped_expr, escape, has_dot,
  replace_dot, ends_with, check_requirements,
}
use stx_ceilometer.Transformer.Arithmetic.Complete.{handle_all, gives, check_requirements_iff}

-- `100 * $(cpu.util) / $(vcpus).resource_metadata.n`
abbrev target : Target
target = record {
  expr =
      plain_text "100 * "
      ∷ meter_name "cpu.util"
      ∷ plain_text " / "
      ∷ meter_name "vcpus"
      ∷ plain_text ".resource_metadata.n"
      ∷ [];
  name = some "share";
  unit = none;
  type = none;
}

escapes : escaped_expr [] target.expr ≡ "100 * _cpu_util_ESC.volume / vcpus.resource_metadata.n"
unfolding escaped_expr escape has_dot replace_dot ends_with
escapes = refl

abbrev sample : String → String → ℕ → Sample ℕ ℕ
sample name resource_id volume = record {
  name = name;
  type = "gauge";
  unit = "ns";
  volume = volume;
  user_id = none;
  project_id = none;
  resource_id = resource_id;
  timestamp = "t1";
  resource_metadata = 0;
  source = "openstack";
  monotonic_time = none;
}

abbrev samples : List (Sample ℕ ℕ)
samples =
    sample "cpu.util" "a" 3 ∷ sample "vcpus" "b" 4 ∷ sample "vcpus" "a" 5 ∷ sample "net" "b" 6 ∷ []

abbrev fresh : ArithmeticTransformer ℕ ℕ
fresh = arithmetic [] target

check_requirements_iff_example :
    (check_requirements (handle_all samples fresh) "a" ≡ true)
    ↔ All (λ m. any (gives fresh.escaped_names "a" m) samples ≡ true) fresh.required_meters
check_requirements_iff_example = check_requirements_iff {N = ℕ} {D = ℕ} [] target samples "a"
