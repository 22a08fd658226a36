-- ===== src/Prelude/Options.antt =====
-- Values that may be None, and their truth tests.
use Prim.Native.String.{String}
use mathlib.Core.Bool.{Bool, true, false}
use mathlib.Core.Option.{Option, none, some}
use stx_ceilometer.Prelude.Tests.{◌==◌, if◌then◌else◌, string_eq}

-- `d.get(k, default)`, and `x if x is not None else default`
abbrev pub or_else {ℓ} : {A : Type ℓ} → Option A → A → A
or_else none a = a
or_else (some x) a = x

-- `x is not None`, and `k in d`
abbrev pub is_some {ℓ} : {A : Type ℓ} → Option A → Bool
is_some none = false
is_some (some a) = true

-- A string that is None or empty is false.
abbrev pub truthy : Option String → Option String
truthy none = none
truthy (some s) = if s == "" then none else some s
