-- ===== src/Api/Query/Gathering.antt =====
-- What the items of a query of ceilometer/api/controllers/v2/utils.py do to the argument `project`.
use text.Mathlib.Text.{starts_with}
use stx_ceilometer.Prelude.{
  Result-cases, String, ◌≡◌, refl, sym, ap, ◌∙◌, Bool, true, false, not, ◌&&◌, ◌||◌, inl, inr,
  Option, some, List, [], ◌∷◌, arith, ok, >>=-eq-ok, if◌then◌else◌, Bool-cases, ◌==◌, ==_iff, All,
  string_eq, any, ok-injective,
}
use stx_ceilometer.Prelude.Dict
use stx_ceilometer.Api.Query.{
  gather_timestamp, value_as_type, lt, Op, eq, Query, Values, op_of, op_beq, is_timestamp_field,
  names_project, translate, Gathered, gather_item, gather_items, gather_equation, gather_timestamp,
  le, gt, ge, ne,
}

translate-project :
    (f : String) → (translate f == "project") ≡ (f == "project" || f == "project_id")
unfolding translate
translate-project f = elim (Bool-cases (f == "user_id")) [
  | inl user ↦ rw ((==_iff f "user_id").0 user) refl
  | inr other ↦ elim (Bool-cases (f == "project_id")) [
    | inl project ↦ rw ((==_iff f "project_id").0 project) refl
    | inr no_project ↦ elim (Bool-cases (f == "resource_id")) [
      | inl resource ↦ rw ((==_iff f "resource_id").0 resource) refl
      | inr plain ↦ let same : translate f ≡ f = ground arith in rw (same, no_project) ground arith
    ]
  ]
]

-- What the tests say of a field that names a project.
abbrev IsPlain : String → Type 0
IsPlain f =
    ((f == "timestamp") ≡ false)
    × ((f == "search_offset") ≡ false)
    × ((f == "enabled") ≡ false)
    × (starts_with f "metadata." ≡ false)
    × (starts_with f "resource_metadata." ≡ false)
    × (translate f ≡ "project")

project-IsPlain : (f : String) → (f == "project" || f == "project_id") ≡ true → IsPlain f
unfolding translate
project-IsPlain f h = elim (Bool-cases (f == "project")) [
  | inl project ↦ rw ((==_iff f "project").0 project) (refl, refl, refl, refl, refl, refl)
  | inr other ↦
      let project_id : (f == "project_id") ≡ true = ground arith in
      rw ((==_iff f "project_id").0 project_id) (refl, refl, refl, refl, refl, refl)
]

-- An item that asks for another project than `p`.
abbrev pub is_foreign : String → Query → Bool
is_foreign p q = names_project q && not (p == q.value)

-- Items of an accepted query compare with `eq`, but for those of timestamps.
abbrev pub is_equation : Query → Bool
is_equation q = is_timestamp_field q.field || op_beq (op_of q) eq

module _ {V T : Type 0} (values : Values V T) where
  -- What an item does to the argument `project`.
  abbrev with_project : Query → Gathered V → Option V
  with_project q g =
      if names_project q then some (values.text q.value) else Dict.get g.kwargs "project"

  gather_equation-enabled :
      (q : Query) (g g' : Gathered V)
      → (q.field == "enabled") ≡ true
      → gather_equation values q g ≡ ok g'
      → Dict.get g'.kwargs "project" ≡ Dict.get g.kwargs "project"
  unfolding gather_equation
  gather_equation-enabled q g g' enabled made =
      let field = (==_iff q.field "enabled").0 enabled in
      let early : (q.field == "search_offset") ≡ false = rw field refl in
      let other : (q.field == "project") ≡ false = rw field refl in
      elim (Result-cases (value_as_type values q (some "boolean"))) [
        | inl (e, failed) ↦ ground arith
        | inr (v, read) ↦ let typed = Dict.get-put g.kwargs q.field "project" v in ground arith
      ]

  gather_equation-plain :
      (q : Query) (g g' : Gathered V)
      → (q.field == "enabled") ≡ false
      → (translate q.field == "project") ≡ false
      → gather_equation values q g ≡ ok g'
      → Dict.get g'.kwargs "project" ≡ Dict.get g.kwargs "project"
  unfolding gather_equation
  gather_equation-plain q g g' no_enabled key made =
      elim (Bool-cases (q.field == "search_offset")) [
        | inl offset ↦ ground arith
        | inr no_offset ↦ elim (Bool-cases (starts_with q.field "metadata.")) [
          | inl meta ↦ ground arith
          | inr no_meta ↦ elim (Bool-cases (starts_with q.field "resource_metadata.")) [
            | inl resource ↦ ground arith
            | inr text ↦
                let written =
                  Dict.get-put g.kwargs (translate q.field) "project" (values.text q.value) in
                ground arith
          ]
        ]
      ]

  gather_equation-project :
      (q : Query) (g g' : Gathered V)
      → gather_equation values q g ≡ ok g'
      → Dict.get g'.kwargs "project" ≡ with_project q g
  unfolding gather_equation
  gather_equation-project q g g' made = elim (Bool-cases (names_project q)) [
    | inl named_project ↦
        let (t, o, e, m, r, key) = project-IsPlain q.field named_project in
        let written = Dict.get-put g.kwargs "project" "project" (values.text q.value) in
        ground arith
    | inr other ↦ elim (Bool-cases (q.field == "enabled")) [
      | inl enabled ↦ gather_equation-enabled q g g' enabled made ∙ rw other refl
      | inr no_enabled ↦
          let key = translate-project q.field ∙ other in
          gather_equation-plain q g g' no_enabled key made ∙ rw other refl
    ]
  ]

  gather_timestamp-kwargs :
      (q : Query) (op : Op) (g : Gathered V) → (gather_timestamp values q op g).kwargs ≡ g.kwargs
  unfolding gather_timestamp
  gather_timestamp-kwargs q lt g = refl
  gather_timestamp-kwargs q le g = refl
  gather_timestamp-kwargs q gt g = refl
  gather_timestamp-kwargs q ge g = refl
  gather_timestamp-kwargs q eq g = refl
  gather_timestamp-kwargs q ne g = refl

  gather_item-project :
      (q : Query) (g g' : Gathered V)
      → is_equation q ≡ true
      → gather_item values q g ≡ ok g'
      → Dict.get g'.kwargs "project" ≡ with_project q g
  unfolding gather_item
  gather_item-project q g g' equation made = elim (Bool-cases (q.field == "timestamp")) [
    | inl stamp ↦
        let field = (==_iff q.field "timestamp").0 stamp in
        let other : names_project q ≡ false = rw field refl in
        let same : gather_timestamp values q (op_of q) g ≡ g' = ground arith in
        ap (λ r. Dict.get r.kwargs "project") (sym same)
        ∙ ap (λ d. Dict.get d "project") (gather_timestamp-kwargs q (op_of q) g)
        ∙ rw other refl
    | inr no_stamp ↦ elim (Bool-cases (op_beq (op_of q) eq)) [
      | inl equal ↦
          let made' : gather_equation values q g ≡ ok g' = ground arith in
          gather_equation-project q g g' made'
      | inr unequal ↦
          let offset : q.field ≡ "search_offset" =
            (==_iff q.field "search_offset").0 ground arith in
          let other : names_project q ≡ false = rw offset refl in
          let same : g ≡ g' = ground arith in
          ap (λ r. Dict.get r.kwargs "project") (sym same) ∙ rw other refl
    ]
  ]

  module _ (p : String) where
    -- Once an item of the project was read, the arguments hold the project.
    abbrev Holds : Bool → Gathered V → Type 0
    Holds seen g = seen ≡ true → Dict.get g.kwargs "project" ≡ some (values.text p)

    held_by :
        (q : Query) (g : Gathered V) (seen : Bool)
        → is_foreign p q ≡ false
        → Holds seen g
        → (seen || q.field == "project_id") ≡ true
        → with_project q g ≡ some (values.text p)
    held_by q g seen own held found = elim (Bool-cases (names_project q)) [
      | inl project ↦
          let same : q.value ≡ p = sym ((==_iff p q.value).0 ground arith) in
          rw (project, same) refl
      | inr other ↦ let before : seen ≡ true = ground arith in rw other (held before)
    ]

    or_false : (a : Bool) → (a || false) ≡ true → a ≡ true
    or_false a h = ground arith

    any_assoc : (a b c : Bool) → ((a || b) || c) ≡ (a || (b || c))
    any_assoc a b c = ground arith

    pub gather_items-Holds :
        (seen : Bool) (qs : List Query) (g g' : Gathered V)
        → All (λ q. is_foreign p q ≡ false) qs
        → All (λ q. is_equation q ≡ true) qs
        → Holds seen g
        → gather_items values qs g ≡ ok g'
        → Holds (seen || any (λ q. q.field == "project_id") qs) g'
    unfolding gather_items
    gather_items-Holds seen [] g g' own equations held made =
        λ found. let same : g ≡ g' = ok-injective made in rw (sym same) (held (or_false seen found))
    gather_items-Holds seen (q ∷ qs) g g' own equations held made =
        let (next, first, rest) =
          >>=-eq-ok (gather_item values q g) (gather_items values qs) made in
        let kept = gather_item-project q g next equations.0 first in
        let value = ==_iff p q.value in
        let here : Holds (seen || q.field == "project_id") next =
          λ found. kept ∙ held_by q g seen own.0 held found in
        let others = any (λ (r : Query). r.field == "project_id") qs in
        λ found.
          let found' : (seen || (q.field == "project_id" || others)) ≡ true = found in
          gather_items-Holds (seen || q.field == "project_id") qs next g' own.1 equations.1 here
            rest (any_assoc seen (q.field == "project_id") others ∙ found')
