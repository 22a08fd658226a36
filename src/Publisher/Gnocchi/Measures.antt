-- ===== src/Publisher/Gnocchi/Measures.antt =====
-- ceilometer/publisher/gnocchi.py: how `publish_samples` gathers measures and resources. Since the
-- samples are sorted by resource, the two loops over the groups are one over the sorted samples.
pub mod Series
use Prim.Native.Char.{code}
use Prim.Native.String.{◌++◌ as concat}
use stx_ceilometer.Prelude.{
  or_else, ℕ, zero, suc, ◌+◌, ◌-◌, ◌*◌, ◌≤◌, ◌<◌, String, ◌≡◌, ◌≢◌, refl, sym, ap, ◌∙◌, subst, Bool,
  true, false, not, ◌&&◌, ◌||◌, ◌↔◌, ◌⊎◌, inl, inr, Option, none, some, List, [], ◌∷◌, ◌++◌, map,
  append-nil, append_assoc, arith, Result, ok, raise, Exception, ◌>>=◌, ◌>>◌, >>=-eq-ok,
  if◌then◌else◌, Bool-cases, Option-cases, ◌==◌, ==_iff, ==_refl, length, contains, All, IsUnique,
  string_eq, ltb, leb, any, all, filter, is_empty, nat_eq,
}
use stx_ceilometer.Prelude.Dict
use stx_ceilometer.Sample.{Sample}
use stx_ceilometer.Prelude.Sorting.{sorted}
use stx_ceilometer.Publisher.Gnocchi.Definition.{ResourcesDefinition, sample_attributes}

-- `replace('/', '_')`
unfoldable pub replace_slash : String → String
replace_slash String.[] = String.[]
replace_slash (String.◌∷◌ c s) =
    if code c == 47 then concat "_" (replace_slash s) else String.◌∷◌ c (replace_slash s)

-- `{'timestamp': …, 'value': …}`
pub record Measure (N : Type 0) : Type 0 where
  pub timestamp : String
  pub value : N

pub record MetricSeries (N : Type 0) : Type 0 where
  pub measures : List (Measure N)
  pub archive_policy_name : String
  pub unit : String

pub record ResourceInfo (V : Type 0) : Type 0 where
  pub resource_type : String
  pub user_id : Option String
  pub project_id : Option String
  pub resource_extra : List (String × V)

-- `measures`: by resource and metric.
abbrev pub Measures : Type 0 → Type 0
Measures N = List (String × List (String × MetricSeries N))

-- `measures`, `gnocchi_data`, and the metrics for which a warning was logged.
pub record Gathered (N V : Type 0) : Type 0 where
  pub measures : Measures N
  pub infos : List (String × ResourceInfo V)
  pub logged : List String

abbrev pub append_measure : {N : Type 0} → MetricSeries N → Measure N → MetricSeries N
append_measure series m = record series { measures = series.measures ++ m ∷ [] }

-- `measures.setdefault(resource_id, {}).setdefault(metric, new)["measures"].append(m)`
unfoldable pub add_measure :
    {N : Type 0} → Measures N → String → String → MetricSeries N → Measure N → Measures N
add_measure measures rid metric new m =
    let of_resource = or_else (Dict.get measures rid) [] in
    let series = or_else (Dict.get of_resource metric) new in
    Dict.put measures rid (Dict.put of_resource metric (append_measure series m))

-- `d.update(e)`
unfoldable pub update_dict :
    {V : Type 0} → List (String × V) → List (String × V) → List (String × V)
update_dict d [] = d
update_dict d ((k, v) ∷ rest) = update_dict (Dict.put d k v) rest

-- `self.metric_map`: a later definition of a metric wins.
unfoldable pub map_metrics :
    {S V : Type 0}
    → List (String × ResourcesDefinition S V)
    → ResourcesDefinition S V
    → List (String × String)
    → List (String × ResourcesDefinition S V)
map_metrics known d [] = known
map_metrics known d ((m, policy) ∷ ms) = map_metrics (Dict.put known m d) d ms

unfoldable pub metric_map :
    {S V : Type 0}
    → List (String × ResourcesDefinition S V)
    → List (ResourcesDefinition S V)
    → List (String × ResourcesDefinition S V)
unfolding map_metrics
metric_map known [] = known
metric_map known (d ∷ ds) = metric_map (map_metrics known d d.metrics) ds

module _ {N D V : Type 0} (known : List (String × ResourcesDefinition (Sample N D) V)) where
  add_info :
      ResourcesDefinition (Sample N D) V
      → String
      → Sample N D
      → List (String × ResourceInfo V)
      → List (String × ResourceInfo V)
  unfolding update_dict
  add_info rd rid s infos =
      let fresh : ResourceInfo V = record {
        resource_type = rd.resource_type;
        user_id = s.user_id;
        project_id = s.project_id;
        resource_extra = [];
      } in
      let info = or_else (Dict.get infos rid) fresh in
      Dict.put infos rid
        (record info { resource_extra = update_dict info.resource_extra (sample_attributes rd s) })

  -- `rd.metrics[metric_name]["archive_policy_name"]`, which is there for each metric of the map.
  abbrev policy_for : ResourcesDefinition (Sample N D) V → String → String
  policy_for rd metric = or_else (Dict.get rd.metrics metric) ""

  gather_known : ResourcesDefinition (Sample N D) V → Sample N D → Gathered N V → Gathered N V
  unfolding add_info
  gather_known rd s g =
      let rid = replace_slash s.resource_id in
      let new : MetricSeries N = record {
        measures = [];
        archive_policy_name = policy_for rd s.name;
        unit = s.unit;
      } in
      let point : Measure N = record { timestamp = s.timestamp; value = s.volume } in
      record g {
        infos = add_info rd rid s g.infos;
        measures = add_measure g.measures rid s.name new point;
      }

  gather_one :
      Option (ResourcesDefinition (Sample N D) V) → Sample N D → Gathered N V → Gathered N V
  unfolding gather_known
  gather_one none s g =
      if contains g.logged s.name then g else record g { logged = g.logged ++ s.name ∷ [] }
  gather_one (some rd) s g = if rd.cfg.ignored then g else gather_known rd s g

  unfoldable pub gather : List (Sample N D) → Gathered N V → Gathered N V
  unfolding gather_one
  gather [] g = g
  gather (s ∷ ss) g = gather ss (gather_one (Dict.get known s.name) s g)

  -- The samples of one call, with what was logged before it.
  unfoldable pub gather_samples : List (Sample N D) → List String → Gathered N V
  unfolding gather sorted
  gather_samples samples logged =
      gather (sorted (λ s. s.resource_id) samples)
        (record { measures = []; infos = []; logged = logged })
