-- ===== src/Transformer/Aggregator/Counts.antt =====
-- Why a flush of ceilometer/transformer/conversions.py finds the count of what it averages, where the
-- configuration does not rename the meter.
use stx_ceilometer.Prelude.{
  any, List, false, suc, ◌<◌, String, ◌≡◌, refl, arith, Result, ok, raise, if◌then◌else◌, ◌==◌,
  ==_iff, All, string_eq, All-map, ◌∙◌, none, Option, ==_refl, List, some, any, false,
}
use stx_ceilometer.Prelude.Dict
use stx_ceilometer.Sample.{Sample, derive}
use stx_ceilometer.Transformer.Conversion.{Env, ConversionCfg, convert, scale, map_attr}
use stx_ceilometer.Transformer.Aggregator.{
  Aggregator, unique_key, count_of, add_new, first_metadata, merged_volume, merge, ConversionCfg,
  convert, last_of, add_sample, count_and_add, start, handle_sample,
}

-- Each stored sample stands under its own key, which was counted.
abbrev pub IsCounted : {Time N D : Type 0} → Aggregator Time N D → Type 0
IsCounted t = All (λ entry. (unique_key t entry.1 ≡ entry.0) × (0 < count_of t entry.0)) t.samples

module _ {Time N D : Type 0} (env : Env N D) (parse_isotime : String → Result Time)
    (no_metadata : D) where
  -- The state of an aggregator behind the counting of a sample.
  abbrev counted : Aggregator Time N D → String → Aggregator Time N D
  counted t key = record t {
    aggregated_samples = suc t.aggregated_samples;
    counts = Dict.put t.counts key (suc (count_of t key));
  }

  counted-count_of :
      (t : Aggregator Time N D) (key k : String)
      → count_of (counted t key) k ≡ (if key == k then suc (count_of t key) else count_of t k)
  unfolding count_of
  counted-count_of t key k = ground (arith, Dict.get-put t.counts key k (suc (count_of t key)))

  counted-IsCounted :
      (t : Aggregator Time N D) (key : String) → IsCounted t → IsCounted (counted t key)
  unfolding unique_key
  counted-IsCounted t key h =
      All-map (λ entry. (unique_key t entry.1 ≡ entry.0) × (0 < count_of t entry.0))
        (λ entry. (unique_key t entry.1 ≡ entry.0) × (0 < count_of (counted t key) entry.0))
        t.samples
        (λ entry p. (p.0, ground (arith, counted-count_of t key entry.0, p.1, ==_iff key entry.0)))
        h

  -- Writing a sample under its own key.
  put-IsCounted :
      (t : Aggregator Time N D) (key : String) (s : Sample N D)
      → IsCounted t
      → unique_key t s ≡ key
      → 0 < count_of t key
      → IsCounted (record t { samples = Dict.put t.samples key s })
  unfolding unique_key count_of
  put-IsCounted t key s h own positive =
      Dict.All-put (λ entry. (unique_key t entry.1 ≡ entry.0) × (0 < count_of t entry.0)) t.samples
        key s h (own, positive)

  add_new-IsCounted :
      (t : Aggregator Time N D) (key : String) (r : Result (Sample N D))
      → ((out : Sample N D) → r ≡ ok out → unique_key t out ≡ key)
      → IsCounted t
      → 0 < count_of t key
      → IsCounted (add_new env parse_isotime no_metadata key r t).1
  unfolding add_new
  add_new-IsCounted t key (raise e) own h positive = h
  add_new-IsCounted t key (ok out) own h positive =
      put-IsCounted t key
        (record out {
          resource_metadata = first_metadata no_metadata t.resource_metadata out.resource_metadata;
        })
        h (unfold unique_key in own out refl) positive

  -- Merging keeps the attributes that are part of the key.
  merged_key :
      (t : Aggregator Time N D) (held s : Sample N D) (scaled : N)
      → unique_key t (record held {
        volume = merged_volume env parse_isotime no_metadata held s scaled;
        project_id = last_of t.project_id held.project_id s.project_id;
        user_id = last_of t.user_id held.user_id s.user_id;
        resource_metadata = last_of t.resource_metadata held.resource_metadata s.resource_metadata;
      })
        ≡ unique_key t held
  unfolding unique_key
  merged_key t held s scaled = ground arith

  merge-IsCounted :
      (t : Aggregator Time N D) (key : String) (held s : Sample N D) (r : Result N)
      → unique_key t held ≡ key
      → IsCounted t
      → 0 < count_of t key
      → IsCounted (merge env parse_isotime no_metadata key held s r t).1
  unfolding merge
  merge-IsCounted t key held s (raise e) own h positive = put-IsCounted t key held h own positive
  merge-IsCounted t key held s (ok scaled) own h positive =
      put-IsCounted t key _ h (merged_key t held s scaled ∙ own) positive

  -- The configuration names no new meter name.
  abbrev pub KeepsName : ConversionCfg N → Type 0
  KeepsName cfg = (cfg.target_name ≡ none) × (cfg.map_from_name ≡ none)

  convert_key :
      (t : Aggregator Time N D) (growth : N) (s out : Sample N D)
      → KeepsName t.cfg
      → convert env t.cfg growth s ≡ ok out
      → unique_key t out ≡ unique_key t s
  unfolding convert derive unique_key map_attr
  convert_key t growth s out named h = ground arith

  add_sample-IsCounted :
      (t : Aggregator Time N D) (held : Option (Sample N D)) (s : Sample N D)
      → KeepsName t.cfg
      → Dict.get t.samples (unique_key t s) ≡ held
      → IsCounted t
      → 0 < count_of t (unique_key t s)
      → IsCounted (add_sample env parse_isotime no_metadata (unique_key t s) held s t).1
  unfolding add_sample
  add_sample-IsCounted t none s named found h positive =
      add_new-IsCounted t (unique_key t s) (convert env t.cfg env.numbers.one s)
        (λ out. convert_key t env.numbers.one s out named) h positive
  add_sample-IsCounted t (some held) s named found h positive =
      let (own, _) =
        Dict.All-get (λ entry. (unique_key t entry.1 ≡ entry.0) × (0 < count_of t entry.0))
          t.samples (unique_key t s) held h found in
      merge-IsCounted t (unique_key t s) _ s (scale env t.cfg.scale s) (unfold unique_key in own) h
        positive

  count_and_add-IsCounted :
      (t : Aggregator Time N D) (s : Sample N D)
      → KeepsName t.cfg
      → IsCounted t
      → IsCounted (count_and_add env parse_isotime no_metadata s t).1
  unfolding count_and_add
  count_and_add-IsCounted t s named h =
      let key = unique_key t s in
      let positive : 0 < count_of (counted t key) key =
        ground (arith, counted-count_of t key key, ==_refl key) in
      unfold unique_key in
      add_sample-IsCounted (counted t key) (Dict.get t.samples key) s named refl
        (counted-IsCounted t key h) positive

  start-IsCounted :
      (t : Aggregator Time N D) (begun : Option Time) (parsed : Result Time) (s : Sample N D)
      → KeepsName t.cfg
      → IsCounted t
      → IsCounted (start env parse_isotime no_metadata begun parsed s t).1
  unfolding start
  start-IsCounted t (some time) parsed s named h = count_and_add-IsCounted t s named h
  start-IsCounted t none (raise e) s named h = h
  start-IsCounted t none (ok time) s named h =
      count_and_add-IsCounted (record t { initial_timestamp = some time }) s named
        (unfold unique_key count_of in h)

  -- Where the configuration does not rename the meter, handling a sample, failing or not, keeps every
  -- stored sample under its own key with that key counted.
  pub handle_sample-IsCounted :
      (t : Aggregator Time N D) (s : Sample N D)
      → KeepsName t.cfg
      → IsCounted t
      → IsCounted (handle_sample env parse_isotime no_metadata t s).1
  unfolding handle_sample
  handle_sample-IsCounted t s named h =
      start-IsCounted t t.initial_timestamp (parse_isotime s.timestamp) s named h
