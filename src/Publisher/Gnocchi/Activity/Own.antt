-- ===== src/Publisher/Gnocchi/Activity/Own.antt =====
-- Which samples ceilometer/publisher/gnocchi.py leaves out, and how often it asks Keystone.
use stx_ceilometer.Prelude.{
  truthy, String, ◌≡◌, refl, ap, ◌∙◌, Bool, true, false, not, Option, none, some, List, [], ◌∷◌,
  arith, ok, if◌then◌else◌, string_eq, filter,
}
use stx_ceilometer.Sample.{Sample}
use stx_ceilometer.Publisher.Gnocchi.Definition.{ResourcesDefinition}
use stx_ceilometer.Publisher.Gnocchi.Activity.{
  Search, project, Filter, gnocchi_project_id, is_own, is_gnocchi_activity, foreign_samples,
}

not_branches : {A : Type 0} (b : Bool) (x y : A) → (if b then x else y) ≡ (if not b then y else x)
not_branches true x y = refl
not_branches false x y = refl

module _ {N D V W : Type 0} (find : Option String → W → Search × W)
    (metric_map : List (String × ResourcesDefinition (Sample N D) V)) where
  is_gnocchi_activity-known :
      (s : Sample N D) (f : Filter W) (name id : String)
      → truthy f.filter_project ≡ some name
      → f.project_id ≡ some id
      → truthy (some id) ≡ some id
      → is_gnocchi_activity find metric_map s f ≡ (ok (is_own find metric_map id s), f)
  unfolding is_gnocchi_activity gnocchi_project_id
  is_gnocchi_activity-known s f name id filtered known full = ground arith

  is_gnocchi_activity-found :
      (s : Sample N D) (f : Filter W) (name id : String)
      → truthy f.filter_project ≡ some name
      → f.project_id ≡ none
      → (find f.filter_project f.world).0 ≡ project id
      → truthy (some id) ≡ some id
      → is_gnocchi_activity find metric_map s f ≡ (
        ok (is_own find metric_map id s),
        record f { project_id = some id; world = (find f.filter_project f.world).1 },
      )
  unfolding is_gnocchi_activity gnocchi_project_id
  is_gnocchi_activity-found s f name id filtered unknown found full = ground arith

  foreign_samples-step :
      (s : Sample N D) (ss kept : List (Sample N D)) (f g : Filter W) (id : String)
      → is_gnocchi_activity find metric_map s f ≡ (ok (is_own find metric_map id s), g)
      → foreign_samples find metric_map ss g ≡ (ok kept, g)
      → foreign_samples find metric_map (s ∷ ss) f
        ≡ (ok (if is_own find metric_map id s then kept else s ∷ kept), g)
  unfolding foreign_samples
  foreign_samples-step s ss kept f g id first rest = ground arith

  -- Once the project is known.
  foreign_samples-known :
      (ss : List (Sample N D)) (f : Filter W) (name id : String)
      → truthy f.filter_project ≡ some name
      → f.project_id ≡ some id
      → truthy (some id) ≡ some id
      → foreign_samples find metric_map ss f
        ≡ (ok (filter (λ s. not (is_own find metric_map id s)) ss), f)
  unfolding foreign_samples
  foreign_samples-known [] f name id filtered known full = refl
  foreign_samples-known (s ∷ ss) f name id filtered known full =
      let rest = foreign_samples-known ss f name id filtered known full in
      let first = is_gnocchi_activity-known s f name id filtered known full in
      let kept = filter (λ x. not (is_own find metric_map id x)) ss in
      foreign_samples-step s ss kept f f id first rest
      ∙ ap (λ l. (ok l, f)) (not_branches (is_own find metric_map id s) kept (s ∷ kept))

  -- Where a project is to be filtered, is not known yet, and Keystone finds it, the samples that are
  -- kept are those that are neither of the project nor of its Swift account, in their order, and
  -- Keystone is asked once for all the samples of the call.
  pub foreign_samples-own :
      (s : Sample N D) (ss : List (Sample N D)) (f : Filter W) (name id : String)
      → truthy f.filter_project ≡ some name
      → f.project_id ≡ none
      → (find f.filter_project f.world).0 ≡ project id
      → truthy (some id) ≡ some id
      → ((foreign_samples find metric_map (s ∷ ss) f).0
          ≡ ok (filter (λ s. not (is_own find metric_map id s)) (s ∷ ss)))
        × ((foreign_samples find metric_map (s ∷ ss) f).1.world ≡ (find f.filter_project f.world).1)
  foreign_samples-own s ss f name id filtered unknown found full =
      let f' : Filter W = record f {
        project_id = some id;
        world = (find f.filter_project f.world).1;
      } in
      let rest = foreign_samples-known ss f' name id filtered refl full in
      let first = is_gnocchi_activity-found s f name id filtered unknown found full in
      let kept = filter (λ x. not (is_own find metric_map id x)) ss in
      let step = foreign_samples-step s ss kept f f' id first rest in
      (
        ap (λ p. p.0) step ∙ ap ok (not_branches (is_own find metric_map id s) kept (s ∷ kept)),
        ap (λ p. p.1.world) step,
      )
