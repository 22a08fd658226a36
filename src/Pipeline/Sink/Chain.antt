-- ===== src/Pipeline/Sink/Chain.antt =====
-- What the chain of transformers of a sample sink does to samples.
use stx_ceilometer.Prelude.{
  ℕ, zero, suc, ◌≡◌, refl, Option, none, some, List, [], ◌∷◌, ok, drop, cons_some,
}
use stx_ceilometer.Pipeline.Sink.{
  after, TransformerBase, transform, transform_sample, transform_samples,
}

abbrev and_then : {S : Type 0} → Option S → (S → Option S) → Option S
and_then none g = none
and_then (some s) g = g s

-- The samples that a list of stateless transformers makes of one sample.
abbrev pub compose : {T S : Type 0} → (T → S → Option S) → List T → S → Option S
compose f [] s = some s
compose f (t ∷ ts) s = and_then (f t s) (compose f ts)

abbrev pub composed : {T S : Type 0} → (T → S → Option S) → List T → List S → List S
composed f ts [] = []
composed f ts (s ∷ ss) = cons_some (compose f ts s) (composed f ts ss)

module _ {T S : Type 0} (ops : TransformerBase T S) (f : T → S → Option S)
    (stateless : (t : T) (s : S) → ops.handle_sample t s ≡ (ok (f t s), t)) where
  after-stateless :
      (o : Option S) (t : T) (ts : List T) (next : S → Option S × List T)
      → ((s : S) → next s ≡ (compose f ts s, ts))
      → after (ok o) t ts next ≡ (and_then o (compose f ts), t ∷ ts)
  unfolding after
  after-stateless none t ts next h = refl
  after-stateless (some s) t ts next h = rw (h s)

  transform-stateless : (ts : List T) (s : S) → transform ops ts s ≡ (compose f ts s, ts)
  unfolding transform
  transform-stateless [] s = refl
  transform-stateless (t ∷ ts) s =
      rw (transform, stateless t s)
        (after-stateless (f t s) t ts (transform ops ts) (transform-stateless ts))

  transform_sample-stateless :
      (n : ℕ) (ts : List T) (s : S) → transform_sample ops n ts s ≡ (compose f (drop n ts) s, ts)
  unfolding transform_sample
  transform_sample-stateless zero ts s = transform-stateless ts s
  transform_sample-stateless (suc n) [] s = refl
  transform_sample-stateless (suc n) (t ∷ ts) s = rw (transform_sample-stateless n ts s)

  -- Stateless transformers turn a batch into the list of what their composition, from the given start
  -- on, makes of each sample, in order and without the samples that one of them drops; the
  -- transformers are left as they were.
  transform_samples-stateless :
      (n : ℕ) (ts : List T) (ss : List S)
      → transform_samples ops n ts ss ≡ (composed f (drop n ts) ss, ts)
  unfolding transform_samples
  transform_samples-stateless n ts [] = refl
  transform_samples-stateless n ts (s ∷ ss) =
      rw (transform_sample-stateless n ts s) (rw (transform_samples-stateless n ts ss))
