-- ===== src/Publisher/Gnocchi/Measures/Series.antt =====
-- Which measures ceilometer/publisher/gnocchi.py posts for a metric of a resource.
use stx_ceilometer.Prelude.{
  or_else, String, ◌≡◌, refl, sym, ap, ◌∙◌, Bool, true, false, not, ◌&&◌, inl, inr, Option, none,
  some, List, [], ◌∷◌, ◌++◌, map, append-nil, append_assoc, arith, if◌then◌else◌, Bool-cases, ◌==◌,
  ==_iff, string_eq, filter,
}
use stx_ceilometer.Prelude.Dict
use stx_ceilometer.Sample.{Sample}
use stx_ceilometer.Prelude.Sorting.{sorted}
use stx_ceilometer.Publisher.Gnocchi.Definition.{ResourcesDefinition}
use stx_ceilometer.Publisher.Gnocchi.Measures.{
  replace_slash, Measure, MetricSeries, Measures, Gathered, append_measure, add_measure, gather,
  gather_one, gather_known, policy_for, gather_samples,
}

-- The measures that stand under a resource and a metric.
unfoldable pub measures_of : {N : Type 0} → Measures N → String → String → List (Measure N)
measures_of measures rid metric = elim (Dict.get (or_else (Dict.get measures rid) []) metric) [
  | none ↦ []
  | some series ↦ series.measures
]

add_measure-measures_of :
    {N : Type 0} (ms : Measures N) (rid metric : String) (new : MetricSeries N) (m : Measure N)
    (r k : String)
    → new.measures ≡ []
    → measures_of (add_measure ms rid metric new m) r k
      ≡ (if rid == r && metric == k then measures_of ms r k ++ m ∷ [] else measures_of ms r k)
unfolding add_measure measures_of
add_measure-measures_of ms rid metric new m r k fresh = ground (
  arith,
  Dict.get-put ms rid r (
      Dict.put (or_else (Dict.get ms rid) []) metric
        (append_measure (or_else (Dict.get (or_else (Dict.get ms rid) []) metric) new) m)),
  Dict.get-put (or_else (Dict.get ms rid) []) metric k
      (append_measure (or_else (Dict.get (or_else (Dict.get ms rid) []) metric) new) m),
  ==_iff rid r,
  ==_iff metric k,
)

module _ {N D V : Type 0} (known : List (String × ResourcesDefinition (Sample N D) V)) where
  -- The sample's metric has a definition that does not ignore it.
  abbrev pub is_handled : Sample N D → Bool
  is_handled s = elim (Dict.get known s.name) [ none ↦ false | some rd ↦ not rd.cfg.ignored ]

  abbrev pub is_for : String → String → Sample N D → Bool
  is_for rid metric s = is_handled s && replace_slash s.resource_id == rid && s.name == metric

  abbrev pub point_of : Sample N D → Measure N
  point_of s = record { timestamp = s.timestamp; value = s.volume }

  gather_one-measures_of :
      (found : Option (ResourcesDefinition (Sample N D) V)) (s : Sample N D) (g : Gathered N V)
      (rid metric : String)
      → Dict.get known s.name ≡ found
      → measures_of (gather_one known found s g).measures rid metric ≡ (
          if is_for rid metric s
          then measures_of g.measures rid metric ++ point_of s ∷ []
          else measures_of g.measures rid metric)
  unfolding gather_one gather_known
  gather_one-measures_of none s g rid metric h = ground arith
  gather_one-measures_of (some rd) s g rid metric h = elim (Bool-cases rd.cfg.ignored) [
    | inl skipped ↦ ground arith
    | inr taken ↦
        let new : MetricSeries N = record {
          measures = [];
          archive_policy_name = policy_for known rd s.name;
          unit = s.unit;
        } in
        let handled : is_handled s ≡ true = ground arith in
        rw (taken, handled)
          (add_measure-measures_of g.measures (replace_slash s.resource_id) s.name new (point_of s)
            rid metric refl)
  ]

  gather_lem :
      (ss : List (Sample N D)) (g : Gathered N V) (rid metric : String)
      → measures_of (gather known ss g).measures rid metric
        ≡ measures_of g.measures rid metric ++ map point_of (filter (is_for rid metric) ss)
  unfolding gather
  gather_lem [] g rid metric = sym (append-nil (measures_of g.measures rid metric))
  gather_lem (s ∷ ss) g rid metric =
      let g' = gather_one known (Dict.get known s.name) s g in
      let later = map point_of (filter (is_for rid metric) ss) in
      let own = gather_one-measures_of (Dict.get known s.name) s g rid metric refl in
      elim (Bool-cases (is_for rid metric s)) [
        | inl wanted ↦
            let grown : measures_of g'.measures rid metric
                ≡ measures_of g.measures rid metric ++ point_of s ∷ [] =
              own ∙ rw wanted refl in
            rw wanted (
              gather_lem ss g' rid metric
              ∙ ap (λ l. l ++ later) grown
              ∙ append_assoc (measures_of g.measures rid metric) (point_of s ∷ []) later)
        | inr other ↦
            let kept : measures_of g'.measures rid metric ≡ measures_of g.measures rid metric =
              own ∙ rw other refl in
            rw other (gather_lem ss g' rid metric ∙ ap (λ l. l ++ later) kept)
      ]

  -- For each resource and metric, the measures that are gathered are those of the call's samples of
  -- that metric whose resource has that identifier behind the replacement of slashes, each once and
  -- in the order of the samples sorted by resource. Samples of metrics without a definition, and of
  -- those that are ignored, give none.
  pub gather_samples-measures_of :
      (samples : List (Sample N D)) (logged : List String) (rid metric : String)
      → measures_of (gather_samples known samples logged).measures rid metric
        ≡ map point_of (filter (is_for rid metric) (sorted (λ s. s.resource_id) samples))
  unfolding gather_samples measures_of Dict.get
  gather_samples-measures_of samples logged rid metric =
      gather_lem (sorted (λ s. s.resource_id) samples)
        (record { measures = []; infos = []; logged = logged }) rid metric
