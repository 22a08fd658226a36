-- ===== src/Tests/Sinks.antt =====
-- Sinks with concrete transformers and publishers.
use stx_ceilometer.Prelude.{
  ℕ, zero, suc, ◌+◌, String, ◌≡◌, refl, true, false, Option, none, some, List, [], ◌∷◌, ◌++◌, map,
  arith, ok, raise, if◌then◌else◌, ◌==◌, string_eq, external,
}
use stx_ceilometer.Pipeline.Sink.{
  Sink, TransformerBase, Publish, publish_samples, publish_events, flush,
}
use stx_ceilometer.Pipeline.Sink.Delivery.{
  outgoing, calls_of, publish_events-multi, publish_samples-calls,
}
use stx_ceilometer.Pipeline.Sink.Flushes.{flush-once}

-- A transformer adds its own number to a sample, and drops the sample 0.
abbrev shift : ℕ → ℕ → Option ℕ
shift t zero = none
shift t (suc n) = some (t + suc n)

abbrev shifting : TransformerBase ℕ ℕ
shifting = record { handle_sample = λ t s. (ok (shift t s), t); flush = λ t. (ok (t ∷ []), suc t) }

-- A publisher records its calls, and raises if it is the broken one.
abbrev recording : Publish ℕ (List (String × List ℕ))
recording p batch w = (if p == "broken" then raise external else ok tt, w ++ (p, batch) ∷ [])

abbrev two : Sink ℕ
two = record {
  name = "two";
  publishers = "broken" ∷ "udp" ∷ [];
  multi_publish = true;
  transformers = 1 ∷ 2 ∷ [];
}

abbrev lone : Sink ℕ
lone = record {
  name = "lone";
  publishers = "broken" ∷ [];
  multi_publish = false;
  transformers = [];
}

publish_events-multi_example :
    ((publish_events recording two (5 ∷ []) []).0 ≡ ok tt)
    × ((publish_events recording two (5 ∷ []) []).1 ≡ [] ++ calls_of two.publishers (5 ∷ []))
publish_events-multi_example =
    publish_events-multi recording (λ w. w) (λ p batch w. refl) two (5 ∷ []) [] refl (omega arith)

lone_raises : (publish_events recording lone (5 ∷ []) []).0 ≡ raise external
unfolding publish_events
lone_raises = refl

publish_samples-calls_example :
    (publish_samples shifting recording two (0 ∷ 5 ∷ []) []).1
    ≡ [] ++ calls_of two.publishers (outgoing shifting two (0 ∷ 5 ∷ []))
publish_samples-calls_example =
    publish_samples-calls shifting recording (λ w. w) (λ p batch w. refl) two (0 ∷ 5 ∷ []) []

both_called :
    (publish_samples shifting recording two (0 ∷ 5 ∷ []) []).1
    ≡ ("broken", 8 ∷ []) ∷ ("udp", 8 ∷ []) ∷ []
unfolding publish_samples
both_called = refl

flush-once_example :
    map (λ (t : ℕ). t) (flush shifting recording two []).0.transformers
    ≡ map suc (map (λ (t : ℕ). t) (1 ∷ 2 ∷ []))
flush-once_example = flush-once shifting recording (λ t. t) (λ t. refl) (λ t s. refl) two []

flush_downstream :
    (flush shifting recording two []).1
    ≡ ("broken", 3 ∷ []) ∷ ("udp", 3 ∷ []) ∷ ("broken", 2 ∷ []) ∷ ("udp", 2 ∷ []) ∷ []
unfolding flush
flush_downstream = refl
