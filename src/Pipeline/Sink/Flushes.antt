-- ===== src/Pipeline/Sink/Flushes.antt =====
-- `SampleSink.flush` of ceilometer/pipeline.py reaches every transformer.
use stx_ceilometer.Prelude.{
  ℕ, zero, suc, ◌≡◌, refl, ◌∙◌, ap, Option, none, some, List, [], ◌∷◌, map, arith, ok, Option-cases,
  inl, inr, Result, get_elem?, length, set, ◌≤◌, sym, ◌+◌,
}
use stx_ceilometer.Pipeline.Sink.{
  flush, flush_rounds, flush_one, after, Sink, Publish, TransformerBase, transform,
  transform_sample, transform_samples, publish_samples_from, raise, flush_at,
}

length-map : {A : Type 0} (f : A → ℕ) (xs : List A) → length (map f xs) ≡ length xs
length-map f [] = refl
length-map f (x ∷ xs) = ap suc (length-map f xs)

-- One more for each element from position `i` on.
abbrev bump_from : ℕ → List ℕ → List ℕ
bump_from zero xs = map suc xs
bump_from (suc i) [] = []
bump_from (suc i) (x ∷ xs) = x ∷ bump_from i xs

bump_from-set :
    (i : ℕ) (xs : List ℕ) (x : ℕ)
    → get_elem? xs i ≡ some x
    → bump_from (suc i) (set xs i (suc x)) ≡ bump_from i xs
bump_from-set zero [] x h = cc
bump_from-set zero (y ∷ ys) x h = cc
bump_from-set (suc i) [] x h = cc
bump_from-set (suc i) (y ∷ ys) x h = ap (λ l. y ∷ l) (bump_from-set i ys x h)

bump_from-length : (i : ℕ) (xs : List ℕ) → length xs ≤ i → bump_from i xs ≡ xs
bump_from-length zero [] h = refl
bump_from-length zero (x ∷ xs) h = absurd (omega arith)
bump_from-length (suc i) [] h = refl
bump_from-length (suc i) (x ∷ xs) h = ap (λ l. x ∷ l) (bump_from-length i xs (omega arith))

length-bump_from : (i : ℕ) (xs : List ℕ) → length (bump_from i xs) ≡ length xs
length-bump_from zero xs = length-map suc xs
length-bump_from (suc i) [] = refl
length-bump_from (suc i) (x ∷ xs) = ap suc (length-bump_from i xs)

map-set :
    {A : Type 0} (f : A → ℕ) (xs : List A) (i : ℕ) (a : A)
    → map f (set xs i a) ≡ set (map f xs) i (f a)
map-set f [] i a = refl
map-set f (x ∷ xs) zero a = refl
map-set f (x ∷ xs) (suc i) a = ap (λ l. f x ∷ l) (map-set f xs i a)

get_elem?-map :
    {A : Type 0} (f : A → ℕ) (xs : List A) (i : ℕ) (a : A)
    → get_elem? xs i ≡ some a
    → get_elem? (map f xs) i ≡ some (f a)
get_elem?-map f [] i a h = cc
get_elem?-map f (x ∷ xs) zero a h = cc
get_elem?-map f (x ∷ xs) (suc i) a h = get_elem?-map f xs i a h

get_elem?-none : {A : Type 0} (xs : List A) (i : ℕ) → get_elem? xs i ≡ none → length xs ≤ i
get_elem?-none [] i h = omega arith
get_elem?-none (x ∷ xs) zero h = cc
get_elem?-none (x ∷ xs) (suc i) h = omega (arith, get_elem?-none xs i h)

module _ {T S W : Type 0} (ops : TransformerBase T S) (publish : Publish S W) (flushed : T → ℕ)
    (once : (t : T) → flushed (ops.flush t).1 ≡ suc (flushed t))
    (kept : (t : T) (s : S) → flushed (ops.handle_sample t s).1 ≡ flushed t) where
  after-kept :
      (result : Result (Option S)) (t : T) (ts : List T) (next : S → Option S × List T)
      → ((s : S) → map flushed (next s).1 ≡ map flushed ts)
      → map flushed (after result t ts next).1 ≡ flushed t ∷ map flushed ts
  unfolding after
  after-kept (raise e) t ts next h = refl
  after-kept (ok none) t ts next h = refl
  after-kept (ok (some s)) t ts next h = ap (λ l. flushed t ∷ l) (h s)

  transform-kept : (ts : List T) (s : S) → map flushed (transform ops ts s).1 ≡ map flushed ts
  unfolding transform
  transform-kept [] s = refl
  transform-kept (t ∷ ts) s =
      after-kept (ops.handle_sample t s).0 (ops.handle_sample t s).1 ts (transform ops ts)
        (transform-kept ts)
      ∙ ap (λ n. n ∷ map flushed ts) (kept t s)

  transform_sample-kept :
      (n : ℕ) (ts : List T) (s : S) → map flushed (transform_sample ops n ts s).1 ≡ map flushed ts
  unfolding transform_sample
  transform_sample-kept zero ts s = transform-kept ts s
  transform_sample-kept (suc n) [] s = refl
  transform_sample-kept (suc n) (t ∷ ts) s = ap (λ l. flushed t ∷ l) (transform_sample-kept n ts s)

  transform_samples-kept :
      (n : ℕ) (ts : List T) (ss : List S)
      → map flushed (transform_samples ops n ts ss).1 ≡ map flushed ts
  unfolding transform_samples
  transform_samples-kept n ts [] = refl
  transform_samples-kept n ts (s ∷ ss) =
      transform_samples-kept n (transform_sample ops n ts s).1 ss ∙ transform_sample-kept n ts s

  publish_samples_from-kept :
      (n : ℕ) (sink : Sink T) (ss : List S) (w : W)
      → map flushed (publish_samples_from ops publish n sink ss w).0.transformers
        ≡ map flushed sink.transformers
  unfolding publish_samples_from
  publish_samples_from-kept n sink ss w =
      ground (arith, transform_samples-kept n sink.transformers ss)

  flush_one-kept :
      (result : Result (List S)) (i : ℕ) (sink : Sink T) (w : W)
      → map flushed (flush_one ops publish result i sink w).0.transformers
        ≡ map flushed sink.transformers
  unfolding flush_one
  flush_one-kept (raise e) i sink w = refl
  flush_one-kept (ok samples) i sink w = publish_samples_from-kept (suc i) sink samples w

  flush_at-bump :
      (i : ℕ) (sink : Sink T) (w : W)
      → bump_from (suc i) (map flushed (flush_at ops publish i sink w).0.transformers)
        ≡ bump_from i (map flushed sink.transformers)
  unfolding flush_at
  flush_at-bump i sink w = elim (Option-cases (get_elem? sink.transformers i)) [
    | inl e ↦
        let short = get_elem?-none sink.transformers i e in
        rw (e, flush_at)
          (bump_from-length (suc i) (map flushed sink.transformers)
              (omega (arith, length-map flushed sink.transformers))
            ∙ sym (
                bump_from-length i (map flushed sink.transformers)
                  (omega (arith, length-map flushed sink.transformers))))
    | inr (t, e) ↦
        let t' = (ops.flush t).1 in
        let flushed_sink : Sink T = record sink { transformers = set sink.transformers i t' } in
        rw (e, flush_at)
          (ap (bump_from (suc i)) (
              flush_one-kept (ops.flush t).0 i flushed_sink w
              ∙ map-set flushed sink.transformers i t'
              ∙ ap (λ n. set (map flushed sink.transformers) i n) (once t))
            ∙ bump_from-set i (map flushed sink.transformers) (flushed t)
                (get_elem?-map flushed sink.transformers i t e))
  ]

  flush_rounds-bump :
      (n i : ℕ) (sink : Sink T) (w : W)
      → length (map flushed sink.transformers) ≤ n + i
      → map flushed (flush_rounds ops publish n i sink w).0.transformers
        ≡ bump_from i (map flushed sink.transformers)
  unfolding flush_rounds
  flush_rounds-bump zero i sink w h =
      sym (bump_from-length i (map flushed sink.transformers) (omega arith))
  flush_rounds-bump (suc n) i sink w h =
      let (sink', w') = flush_at ops publish i sink w in
      let same = flush_at-bump i sink w in
      flush_rounds-bump n (suc i) sink' w' (
        omega (
          arith,
          ap length same,
          length-bump_from (suc i) (map flushed sink'.transformers),
          length-bump_from i (map flushed sink.transformers),
        ))
      ∙ same

  -- `flush` calls the `flush` of every transformer exactly once, also where one of them, or a
  -- publisher, raises: `flushed` is any count that a transformer's `flush` raises by one and its
  -- `handle_sample` keeps.
  pub flush-once :
      (sink : Sink T) (w : W)
      → map flushed (flush ops publish sink w).0.transformers
        ≡ map suc (map flushed sink.transformers)
  unfolding flush
  flush-once sink w =
      flush_rounds-bump (length sink.transformers) 0 sink w
        (omega (arith, length-map flushed sink.transformers))
