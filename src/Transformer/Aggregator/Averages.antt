-- ===== src/Transformer/Aggregator/Averages.antt =====
-- `AggregatorTransformer.flush` of ceilometer/transformer/conversions.py.
use stx_ceilometer.Prelude.{
  String, ◌≡◌, refl, ap, ◌∙◌, Bool, true, false, ◌&&◌, Option, none, some, List, [], ◌∷◌, map,
  arith, Result, ok, raise, Exception, if◌then◌else◌, ◌==◌, string_eq, any, nat_eq,
}
use stx_ceilometer.Prelude.{zero_division_error}
use stx_ceilometer.Sample.{Arithmetic, Sample, type_gauge}
use stx_ceilometer.Transformer.Aggregator.{
  Aggregator, unique_key, count_of, average_all, is_due, release, flush_started, flush,
}

module _ {Time N D : Type 0} (numbers : Arithmetic N) (is_older_than : Time → N → Bool) where
  -- A gauge whose key, computed from the stored sample, was never counted.
  abbrev pub is_uncounted : Aggregator Time N D → String × Sample N D → Bool
  is_uncounted t entry = entry.1.type == type_gauge && count_of t (unique_key t entry.1) == 0

  -- What a flush hands out for a stored sample: a gauge's mean, and another sample as it is.
  abbrev pub mean : Aggregator Time N D → String × Sample N D → Sample N D
  mean t entry =
      if entry.1.type == type_gauge
      then record entry.1 {
        volume = numbers.div entry.1.volume (numbers.of_ℕ (count_of t (unique_key t entry.1)));
      }
      else entry.1

  average_all-raise :
      (t : Aggregator Time N D) (entries : List (String × Sample N D))
      → any (is_uncounted t) entries ≡ true
      → (average_all numbers is_older_than t entries).0 ≡ raise zero_division_error
  unfolding average_all
  average_all-raise t [] h = cc
  average_all-raise t ((key, s) ∷ rest) h = ground (arith, average_all-raise t rest)

  average_all-ok :
      (t : Aggregator Time N D) (entries : List (String × Sample N D))
      → any (is_uncounted t) entries ≡ false
      → ((average_all numbers is_older_than t entries).0 ≡ ok tt)
        × (map (λ entry. entry.1) (average_all numbers is_older_than t entries).1
            ≡ map (mean t) entries)
  unfolding average_all
  average_all-ok t [] h = (refl, refl)
  average_all-ok t ((key, s) ∷ rest) h = ground (arith, average_all-ok t rest)

  due_step :
      (t : Aggregator Time N D) (start : Option Time) (time : Time)
      → start ≡ some time
      → is_due numbers is_older_than t time ≡ true
      → flush_started numbers is_older_than start t
        ≡ release numbers is_older_than (average_all numbers is_older_than t t.samples) t
  unfolding flush_started
  due_step t none time started due = cc
  due_step t (some begun) time started due = let same : begun ≡ time = cc in rw same (rw due refl)

  abbrev pub emptied : Aggregator Time N D → Aggregator Time N D
  emptied t = record t {
    samples = [];
    counts = [];
    aggregated_samples = 0;
    initial_timestamp = none;
  }

  release-ok :
      (averaged : Result (Unit {0}) × List (String × Sample N D)) (t : Aggregator Time N D)
      → averaged.0 ≡ ok tt
      → release numbers is_older_than averaged t
        ≡ (ok (map (λ entry. entry.1) averaged.1), emptied t)
  unfolding release
  release-ok (ok _, entries) t h = refl
  release-ok (raise e, entries) t h = cc

  release-raise :
      (averaged : Result (Unit {0}) × List (String × Sample N D)) (t : Aggregator Time N D)
      (e : Exception)
      → averaged.0 ≡ raise e
      → release numbers is_older_than averaged t ≡ (raise e, record t { samples = averaged.1 })
  unfolding release
  release-raise (ok _, entries) t e h = cc
  release-raise (raise e', entries) t e h = ground arith

  -- A flush that is due, with every stored gauge counted, hands out each stored sample once, gauges
  -- as means over their counts, and leaves an empty aggregator.
  pub flush-means :
      (t : Aggregator Time N D) (time : Time)
      → t.initial_timestamp ≡ some time
      → is_due numbers is_older_than t time ≡ true
      → any (is_uncounted t) t.samples ≡ false
      → flush numbers is_older_than t ≡ (ok (map (mean t) t.samples), emptied t)
  unfolding flush
  flush-means t time started due counted =
      let (done, means) = average_all-ok t t.samples counted in
      due_step t t.initial_timestamp time started due
      ∙ release-ok (average_all numbers is_older_than t t.samples) t done
      ∙ ap (λ out. (ok out, emptied t)) means

  -- A flush that is due while some stored gauge's key was never counted raises ZeroDivisionError and
  -- keeps the counts and the time stamp, and is due again.
  pub flush-stuck :
      (t : Aggregator Time N D) (time : Time)
      → t.initial_timestamp ≡ some time
      → is_due numbers is_older_than t time ≡ true
      → any (is_uncounted t) t.samples ≡ true
      → ((flush numbers is_older_than t).0 ≡ raise zero_division_error)
        × (is_due numbers is_older_than (flush numbers is_older_than t).1 time ≡ true)
        × ((flush numbers is_older_than t).1.counts ≡ t.counts)
        × ((flush numbers is_older_than t).1.initial_timestamp ≡ some time)
  unfolding flush
  flush-stuck t time started due uncounted =
      let step =
        due_step t t.initial_timestamp time started due
        ∙ release-raise (average_all numbers is_older_than t t.samples) t zero_division_error
            (average_all-raise t t.samples uncounted) in
      rw step (refl, due, refl, started)
