-- ===== src/Publisher/Gnocchi/Activity.antt =====
-- ceilometer/publisher/gnocchi.py: the samples that Gnocchi itself causes, which `publish_samples`
-- leaves out. Keystone's search of a project is a parameter.
pub mod Own
use stx_ceilometer.Prelude.{
  truthy, ℕ, zero, suc, ◌+◌, ◌-◌, ◌*◌, ◌≤◌, ◌<◌, String, ◌≡◌, ◌≢◌, refl, sym, ap, ◌∙◌, subst, Bool,
  true, false, not, ◌&&◌, ◌||◌, ◌↔◌, ◌⊎◌, inl, inr, Option, none, some, List, [], ◌∷◌, ◌++◌, map,
  append-nil, append_assoc, arith, Result, ok, raise, Exception, ◌>>=◌, ◌>>◌, >>=-eq-ok,
  if◌then◌else◌, Bool-cases, Option-cases, ◌==◌, ==_iff, ==_refl, length, contains, All, IsUnique,
  string_eq, ltb, leb, any, all, filter, is_empty, option_eq,
}
use stx_ceilometer.Prelude.Dict
use stx_ceilometer.Sample.{Sample}
use stx_ceilometer.Publisher.Gnocchi.Definition.{ResourcesDefinition}

-- What a search of a project by its name gives.
pub data Search : Type 0 where
  project : String → Search
  not_found : Search
  failed : Exception → Search

-- `filter_project`, `_gnocchi_project_id`, and the world.
pub record Filter (W : Type 0) : Type 0 where
  pub filter_project : Option String
  pub project_id : Option String
  pub world : W

module _ {N D V W : Type 0} (find : Option String → W → Search × W)
    (metric_map : List (String × ResourcesDefinition (Sample N D) V)) where
  -- `gnocchi_project_id`
  unfoldable pub gnocchi_project_id : Filter W → Result (Option String) × Filter W
  gnocchi_project_id f = elim f.project_id [
    | some id ↦ (ok (some id), f)
    | none ↦
        let (result, w) = find f.filter_project f.world in
        elim result [
          | project id ↦ (ok (some id), record f { project_id = some id; world = w })
          | not_found ↦ (ok none, record f { filter_project = none; world = w })
          | failed e ↦ (raise e, record f { world = w })
        ]
  ]

  -- `_is_swift_account_sample`
  abbrev pub is_swift_account_sample : Sample N D → Bool
  is_swift_account_sample s = elim (Dict.get metric_map s.name) [
    | none ↦ false
    | some rd ↦ rd.resource_type == "swift_account"
  ]

  -- The sample is of the project, or of its account of Swift.
  abbrev pub is_own : String → Sample N D → Bool
  is_own id s = s.project_id == some id || (s.resource_id == id && is_swift_account_sample s)

  -- `_is_gnocchi_activity`: an empty id counts as none.
  unfoldable pub is_gnocchi_activity : Sample N D → Filter W → Result Bool × Filter W
  unfolding gnocchi_project_id
  is_gnocchi_activity s f = elim (truthy f.filter_project) [
    | none ↦ (ok false, f)
    | some name ↦
        let (found, f') = gnocchi_project_id f in
        elim found [
          | raise e ↦ (raise e, f')
          | ok id ↦ elim (truthy id) [ none ↦ (ok false, f') | some own ↦ (ok (is_own own s), f') ]
        ]
  ]

  -- `[s for s in data if not self._is_gnocchi_activity(s)]`
  unfoldable pub foreign_samples :
      List (Sample N D) → Filter W → Result (List (Sample N D)) × Filter W
  unfolding is_gnocchi_activity
  foreign_samples [] f = (ok [], f)
  foreign_samples (s ∷ ss) f =
      let (own, f') = is_gnocchi_activity s f in
      let (rest, f'') = foreign_samples ss f' in
      elim own [
        | raise e ↦ (raise e, f')
        | ok b ↦ (rest >>= (λ others. ok (if b then others else s ∷ others)), f'')
      ]
