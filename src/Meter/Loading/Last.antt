-- ===== src/Meter/Loading/Last.antt =====
-- Which of several definitions of one meter ceilometer/meter/notifications.py keeps.
use stx_ceilometer.Prelude.{String, false, some, List, ok, ◌==◌, string_eq}
use stx_ceilometer.Prelude.{option_eq}
use stx_ceilometer.Prelude.Dict
use stx_ceilometer.Meter.{Bool, raise}
use stx_ceilometer.Meter.Loading.{Config, name_of}

-- The configuration is of the meter of that name.
abbrev pub is_named : {B V C : Type 0} → Config B V C → List (String × C) → String → Bool
is_named config cfg n = elim (name_of config cfg) [ ok name ↦ name == some n | raise e ↦ false ]
