-- ===== src/Transformer/Accumulator/Batches.antt =====
-- What an accumulator of ceilometer/transformer/accumulator.py lets out, and when.
use stx_ceilometer.Prelude.{◌++◌, [], ◌≡◌, raise, true, some}
use stx_ceilometer.Prelude.{
  ◌≡◌, refl, sym, ap, ◌∙◌, true, false, ◌⊎◌, inl, inr, none, some, List, [], ◌∷◌, ◌++◌, append-nil,
  append_assoc, arith, Result, ok, raise, Bool-cases, length, string_eq,
}
use stx_ceilometer.Prelude.{attribute_error}
use stx_ceilometer.Prelude.Int.{ℤ, pos, leb_ℤ}
use stx_ceilometer.Transformer.Accumulator.{
  Accumulator, accumulator, handle_sample, flush, Result, List, leb_ℤ, ok, ◌++◌, pos,
}

-- What a sink does with its accumulator: hand it a sample, or flush it.
pub data Call (S : Type 0) : Type 0 where
  handle : S → Call S
  flush_call : Call S

module _ {S : Type 0} where
  unfoldable emitted : Result (List S) → List S
  emitted (ok xs) = xs
  emitted (raise e) = []

  -- The samples that leave the accumulator through `flush`, in order, and its last state.
  unfoldable pub run : Accumulator S → List (Call S) → List S × Accumulator S
  unfolding emitted
  run t [] = ([], t)
  run t (handle s ∷ calls) = run (handle_sample t s).1 calls
  run t (flush_call ∷ calls) =
      let (result, t') = flush t in
      let (later, last) = run t' calls in (emitted result ++ later, last)

  abbrev pub handled : List (Call S) → List S
  handled [] = []
  handled (handle s ∷ calls) = s ∷ handled calls
  handled (flush_call ∷ calls) = handled calls

  abbrev pub held : Accumulator S → List S
  held t = elim t.samples [ none ↦ [] | some xs ↦ xs ]

  flush_cases :
      (t : Accumulator S) (buffer : List S)
      → t.samples ≡ some buffer
      → ((flush t).0 ≡ ok buffer) × ((flush t).1 ≡ record t { samples = some [] })
        ⊎ ((flush t).0 ≡ ok []) × ((flush t).1 ≡ t)
  unfolding flush
  flush_cases t buffer h = elim (Bool-cases (leb_ℤ t.size (pos (length buffer)))) [
    | inl due ↦ inl (ground arith)
    | inr early ↦ inr (ground arith)
  ]

  handle_lem :
      (t : Accumulator S) (s : S) (buffer : List S)
      → leb_ℤ (pos 1) t.size ≡ true
      → t.samples ≡ some buffer
      → (handle_sample t s).1 ≡ record t { samples = some (buffer ++ s ∷ []) }
  unfolding handle_sample
  handle_lem t s buffer large h = ground arith

  -- An accumulator of a size of at least 1 loses, doubles and reorders nothing: over any calls, what
  -- `flush` has let out, followed by what is still held, is what was held before, followed by the
  -- samples that were handed over.
  pub run-conserves :
      (calls : List (Call S)) (t : Accumulator S) (buffer : List S)
      → leb_ℤ (pos 1) t.size ≡ true
      → t.samples ≡ some buffer
      → (run t calls).0 ++ held (run t calls).1 ≡ buffer ++ handled calls
  unfolding run
  run-conserves [] t buffer large h = rw (run, h) (sym (append-nil buffer))
  run-conserves (handle s ∷ calls) t buffer large h =
      rw (run, handle_lem t s buffer large h)
        (run-conserves calls (record t { samples = some (buffer ++ s ∷ []) }) (buffer ++ s ∷ [])
            large refl
          ∙ append_assoc buffer (s ∷ []) (handled calls))
  run-conserves (flush_call ∷ calls) t buffer large h = elim (flush_cases t buffer h) [
    | inl (out, emptied) ↦
        rw (run, out, emptied)
          (append_assoc buffer (run (record t { samples = some [] }) calls).0
              (held (run (record t { samples = some [] }) calls).1)
            ∙ ap (λ l. buffer ++ l)
                (run-conserves calls (record t { samples = some [] }) [] large refl))
    | inr (nothing, same) ↦ rw (run, nothing, same) (run-conserves calls t buffer large h)
  ]

  -- A batch leaves an accumulator only when it has the configured size at least.
  flush-full :
      (t : Accumulator S) (x : S) (xs : List S)
      → (flush t).0 ≡ ok (x ∷ xs)
      → leb_ℤ t.size (pos (length (x ∷ xs))) ≡ true
  unfolding flush
  flush-full t x xs h = ground arith

-- An accumulator that is configured with a size below 1 passes samples through unchanged, but its
-- `flush` raises AttributeError, since `__init__` has not set its buffer.
accumulator-unbuffered :
    {S : Type 0} (size : ℤ) (s : S)
    → leb_ℤ (pos 1) size ≡ false
    → ((handle_sample (accumulator size) s).0 ≡ ok (some s))
      × ((flush (accumulator {S = S} size)).0 ≡ raise attribute_error)
unfolding accumulator handle_sample flush
accumulator-unbuffered size s h = ground arith
