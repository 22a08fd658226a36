-- ===== src/Prelude/Errors.antt =====
-- Python exceptions as values, and the chain of statements that may raise.
use mathlib.Core.Path.{◌≡◌, refl}
use mathlib.Core.Option.{Option, none, some}
use mathlib.Core.Logic.{◌⊎◌, inl, inr}

-- The messages of `PipelineException`, without the values printed into them.
pub data Message : Type 0 where
  nothing_specified included_and_excluded included_with_wildcard : Message
  name_missing sinks_missing meters_missing : Message
  no_sink_defined dangling_sink no_publisher no_transformer_named : Message
  interval_missing interval_invalid interval_not_positive : Message
  resources_not_list discovery_not_list : Message
  sources_and_sinks_required duplicated_source duplicated_sink duplicate_pipeline : Message
  sources_required event_type_missing traits_missing : Message
  field_missing field_mistyped : Message
  plugin_unnamed plugin_unknown path_mistaken several_values_refused : Message
  required_fields_missing type_invalid : Message

-- `external` stands for an exception that code outside the modelled parts raises.
pub data Exception : Type 0 where
  pipeline_exception polling_exception : Message → Exception
  key_error index_error type_error value_error attribute_error : Exception
  unicode_encode_error zero_division_error delivery_failure client_exception os_error
        not_implemented client_side_error project_not_authorized invalid_input unknown_argument
        forbidden syntax_error validation_error external :
      Exception
  definition_exception event_definition_exception resource_definition_exception
        meter_definition_exception :
      Message → Exception

pub data Result {ℓ} (X : Type ℓ) : Type ℓ where
  ok : X → Result X
  raise : Exception → Result X

-- Statements one behind the other: the first exception ends them.
module _ {ℓ κ} {X : Type ℓ} {Y : Type κ} where
  infixl 5 ◌>>=◌ ◌>>◌
  abbrev pub ◌>>=◌ : Result X → (X → Result Y) → Result Y
  raise e >>= next = raise e
  ok x >>= next = next x

  abbrev pub ◌>>◌ : Result X → Result Y → Result Y
  first >> second = first >>= λ x. second

  -- A chain that raises nothing has a first part that raises nothing.
  pub >>=-eq-ok :
      (first : Result X) (next : X → Result Y) {y : Y}
      → (first >>= next) ≡ ok y
      → (x : X) × (first ≡ ok x) × (next x ≡ ok y)
  >>=-eq-ok (raise e) next h = cc
  >>=-eq-ok (ok x) next h = (x, refl, h)

-- `d[k]` on a missing key raises `error`.
abbrev pub require {ℓ} : {A : Type ℓ} → Exception → Option A → Result A
require error none = raise error
require error (some a) = ok a

-- What follows a call that did not raise.
abbrev pub map_result {ℓ κ} : {A : Type ℓ} {B : Type κ} → (A → B) → Result A → Result B
map_result f (ok a) = ok (f a)
map_result f (raise e) = raise e

pub ok-injective {ℓ} : {A : Type ℓ} {a b : A} → ok a ≡ ok b → a ≡ b
ok-injective h = cc

pub map_result-ok {ℓ κ} :
    {A : Type ℓ} {B : Type κ} (f : A → B) (r : Result A) {b : B}
    → map_result f r ≡ ok b
    → (a : A) × (r ≡ ok a) × (f a ≡ b)
map_result-ok f (ok a) h = (a, refl, ok-injective h)
map_result-ok f (raise e) h = cc

-- To split on a computed result and keep the equation.
pub Result-cases {ℓ} :
    {A : Type ℓ} (r : Result A) → ((e : Exception) × (r ≡ raise e)) ⊎ ((a : A) × (r ≡ ok a))
Result-cases (raise e) = inl (e, refl)
Result-cases (ok a) = inr (a, refl)
