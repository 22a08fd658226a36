-- ===== src/Transformer/Accumulator.antt =====
-- ceilometer/transformer/accumulator.py: `TransformerAccumulator`.
pub mod Batches
use stx_ceilometer.Prelude.{
  ℕ, String, Bool, true, false, Option, none, some, List, [], ◌∷◌, ◌++◌, Result, ok, raise,
  Exception, attribute_error, length, if◌then◌else◌,
}
use stx_ceilometer.Prelude.Int.{ℤ, pos, leb_ℤ}
use stx_ceilometer.Pipeline.Sink.{TransformerBase}

-- The attribute `samples` is there only if `__init__` has set it.
pub record Accumulator (S : Type 0) : Type 0 where
  pub size : ℤ
  pub samples : Option (List S)

module _ {S : Type 0} where
  unfoldable pub accumulator : ℤ → Accumulator S
  accumulator size = record { size = size; samples = if leb_ℤ (pos 1) size then some [] else none }

  append_to : Option (List S) → S → Accumulator S → Result (Option S) × Accumulator S
  append_to none s t = (raise attribute_error, t)
  append_to (some held) s t = (ok none, record t { samples = some (held ++ s ∷ []) })

  unfoldable pub handle_sample : Accumulator S → S → Result (Option S) × Accumulator S
  unfolding append_to
  handle_sample t s = if leb_ℤ (pos 1) t.size then append_to t.samples s t else (ok (some s), t)

  flush_held : Option (List S) → Accumulator S → Result (List S) × Accumulator S
  flush_held none t = (raise attribute_error, t)
  flush_held (some held) t =
      if leb_ℤ t.size (pos (length held))
      then (ok held, record t { samples = some [] })
      else (ok [], t)

  unfoldable pub flush : Accumulator S → Result (List S) × Accumulator S
  unfolding flush_held
  flush t = flush_held t.samples t

  pub accumulator_base : TransformerBase (Accumulator S) S
  accumulator_base = record { handle_sample = handle_sample; flush = flush }
