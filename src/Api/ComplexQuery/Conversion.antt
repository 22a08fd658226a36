-- ===== src/Api/ComplexQuery/Conversion.antt =====
-- What the conversions of a filter of ceilometer/api/controllers/v2/query.py keep of its projects.
use stx_ceilometer.Prelude.{
  String, ◌≡◌, refl, sym, ap, ◌∙◌, subst, true, inl, inr, List, arith, ok, Bool-cases, ==_iff,
  string_eq, map_result, Bool, false, ◌&&◌, ◌==◌, not, ==_refl, contains, >>=-eq-ok,
}
use stx_ceilometer.Prelude.{Result-cases, ok-injective}
use stx_ceilometer.Api.ComplexQuery.{
  Operand, string, other, Filter, junction, negation, leaf, traverse_postorder, replace_field_name,
  check_project_id, normalize_field_names, is_own, operator, with_operator, lowercase_operator,
  Parsers, replace_isotime, raise, timestamp_fields, converted,
}
use stx_ceilometer.Api.ComplexQuery.Traversal.{
  Every, Every-trivial, Each-trivial, Every-traverse_postorder, Every-with_operator,
}

-- The field is renamed to the visibility field.
abbrev is_named : List (String × String) → String → String → Bool
is_named mapping visibility_field field = elim (replace_field_name mapping field) [
  | ok name ↦ name == visibility_field
  | raise e ↦ false
]

module _ {V : Type 0} where
  -- A comparison with the visibility field is one with the own project.
  abbrev IsOwn : String → String → String → Operand V → Type 0
  IsOwn p visibility_field field value = field ≡ visibility_field → value ≡ string p

  -- The same of a field that is renamed to the visibility field.
  abbrev IsOwnNamed : List (String × String) → String → String → String → Operand V → Type 0
  IsOwnNamed mapping p visibility_field field value =
      replace_field_name mapping field ≡ ok visibility_field → value ≡ string p

  is_own-eq : (p : String) (value : Operand V) → is_own p value ≡ true → value ≡ string p
  is_own-eq p (string s) h = rw ((==_iff s p).0 h) refl
  is_own-eq p (other v) h = cc

  pub check_project_id_same :
      (p visibility_field : String) (f g : Filter V)
      → check_project_id p visibility_field f ≡ ok g
      → g ≡ f
  unfolding check_project_id
  check_project_id_same p vis (junction op fs) g h = sym (ok-injective h)
  check_project_id_same p vis (negation op f) g h = ground arith
  check_project_id_same p vis (leaf op field value) g h = ground arith

  check_project_id-IsOwn :
      (p visibility_field op field : String) (value : Operand V) (g : Filter V)
      → check_project_id p visibility_field (leaf op field value) ≡ ok g
      → IsOwn p visibility_field field value
  unfolding check_project_id
  check_project_id-IsOwn p vis op field value g h = λ same. elim (Bool-cases (is_own p value)) [
    | inl own ↦ is_own-eq p value own
    | inr foreign ↦ let seen = (==_iff field vis).1 same in ground arith
  ]

  pub check_project_id-Every :
      (p visibility_field : String) (f g : Filter V)
      → traverse_postorder (check_project_id p visibility_field) f ≡ ok g
      → Every (IsOwn p visibility_field) f
  check_project_id-Every p vis f g h =
      Every-traverse_postorder (λ field value. Unit {0}) (IsOwn p vis) (check_project_id p vis)
        (λ op field value g' made t. check_project_id-IsOwn p vis op field value g' made)
        (λ op f' g' made t. Every-trivial f') (λ op fs g' made t. Each-trivial fs) f g h
        (Every-trivial g)

  module _ (mapping : List (String × String)) (p visibility_field : String) where
    normalize-leaf :
        (op field : String) (value : Operand V) (g : Filter V)
        → normalize_field_names mapping (leaf op field value) ≡ ok g
        → Every (IsOwn p visibility_field) g
        → IsOwnNamed mapping p visibility_field field value
    unfolding normalize_field_names Every
    normalize-leaf op field value g made own = λ named.
        own_of named (ok-injective (sym made ∙ ap (map_result (λ name. leaf op name value)) named))
      where
        own_of :
            replace_field_name mapping field ≡ ok visibility_field
            → g ≡ leaf op visibility_field value
            → value ≡ string p
        own_of named same = subst (Every (IsOwn p visibility_field)) same own refl

    normalize-negation :
        (op : String) (f g : Filter V)
        → normalize_field_names mapping (negation op f) ≡ ok g
        → Every (IsOwn p visibility_field) g
        → Every (IsOwn p visibility_field) f
    unfolding normalize_field_names Every
    normalize-negation op f g made own =
        elim (Result-cases (replace_field_name mapping (operator f))) [
          | inl (e, failed) ↦ ground arith
          | inr (name, named) ↦
              let same : g ≡ negation op (with_operator name f) =
                ok-injective
                  (sym made ∙ ap (map_result (λ n. negation op (with_operator n f))) named) in
              Every-with_operator (IsOwn p visibility_field) name f
                (subst (Every (IsOwn p visibility_field)) same own)
        ]

    normalize-Every :
        (f g : Filter V)
        → traverse_postorder (normalize_field_names mapping) f ≡ ok g
        → Every (IsOwn p visibility_field) g
        → Every (IsOwnNamed mapping p visibility_field) f
    unfolding normalize_field_names Every
    normalize-Every =
        Every-traverse_postorder (IsOwn p visibility_field) (IsOwnNamed mapping p visibility_field)
          (normalize_field_names mapping) normalize-leaf normalize-negation
          (λ op fs g made own.
            subst (Every (IsOwn p visibility_field)) (sym (ok-injective made)) own)

    -- A comparison that names another project.
    abbrev pub is_foreign : String → Operand V → Bool
    is_foreign field value = is_named mapping visibility_field field && not (is_own p value)

    named-is_foreign :
        (field : String) (value : Operand V)
        → IsOwnNamed mapping p visibility_field field value
        → is_foreign field value ≡ false
    named-is_foreign field value own = elim (Result-cases (replace_field_name mapping field)) [
      | inl (e, failed) ↦ ground arith
      | inr (name, renamed) ↦ elim (Bool-cases (name == visibility_field)) [
        | inl same ↦
            let value_own = own (renamed ∙ ap ok ((==_iff name visibility_field).0 same)) in
            let own_value : is_own p value ≡ true = ap (is_own p) value_own ∙ ==_refl p in
            ground arith
        | inr different ↦ ground arith
      ]
    ]

    lowercase-Every :
        (P : String → Operand V → Type 0) (f g : Filter V)
        → traverse_postorder lowercase_operator f ≡ ok g
        → Every P g
        → Every P f
    unfolding lowercase_operator Every
    lowercase-Every P =
        Every-traverse_postorder P P lowercase_operator
          (λ op field value g made h. subst (Every P) (sym (ok-injective made)) h)
          (λ op f g made h. subst (Every P) (sym (ok-injective made)) h)
          (λ op fs g made h. subst (Every P) (sym (ok-injective made)) h)

    module _ (parsers : Parsers V) where
      isotime-leaf :
          (op field : String) (value : Operand V) (g : Filter V)
          → replace_isotime parsers (leaf op field value) ≡ ok g
          → Every (IsOwnNamed mapping p visibility_field) g
          → is_foreign field value ≡ false
      unfolding replace_isotime Every
      isotime-leaf op field value g made own = elim (Bool-cases (contains timestamp_fields field)) [
        | inl timed ↦ elim (Result-cases (parsers.parse_isotime value)) [
          | inl (e, failed) ↦ ground arith
          | inr (t, parsed) ↦
              let same : g ≡ leaf op field (other t) = ground arith in
              let late = subst (Every (IsOwnNamed mapping p visibility_field)) same own in
              named-is_foreign field value (λ named. let clash = late named in cc)
        ]
        | inr plain ↦
            let same : g ≡ leaf op field value = ground arith in
            named-is_foreign field value
              (subst (Every (IsOwnNamed mapping p visibility_field)) same own)
      ]

      isotime-negation :
          (P : String → Operand V → Type 0) (op : String) (f g : Filter V)
          → replace_isotime parsers (negation op f) ≡ ok g
          → Every P g
          → Every P f
      unfolding replace_isotime Every
      isotime-negation P op f g made h =
          elim (Bool-cases (contains timestamp_fields (operator f))) [
            | inl timed ↦ ground arith
            | inr plain ↦ let same : g ≡ negation op f = ground arith in subst (Every P) same h
          ]

      isotime-Every :
          (f g : Filter V)
          → traverse_postorder (replace_isotime parsers) f ≡ ok g
          → Every (IsOwnNamed mapping p visibility_field) g
          → Every (λ field value. is_foreign field value ≡ false) f
      unfolding replace_isotime Every
      isotime-Every =
          Every-traverse_postorder (IsOwnNamed mapping p visibility_field)
            (λ field value. is_foreign field value ≡ false) (replace_isotime parsers) isotime-leaf
            (isotime-negation (IsOwnNamed mapping p visibility_field))
            (λ op fs g made h.
              subst (Every (IsOwnNamed mapping p visibility_field)) (sym (ok-injective made)) h)

      pub converted-Every :
          (f g : Filter V)
          → converted parsers mapping f ≡ ok g
          → Every (IsOwn p visibility_field) g
          → Every (λ field value. is_foreign field value ≡ false) f
      unfolding converted
      converted-Every f g made own =
          let (lowered, made', renamed) =
            >>=-eq-ok _ (traverse_postorder (normalize_field_names mapping)) made in
          let (dated, timed, lowering) =
            >>=-eq-ok _ (traverse_postorder lowercase_operator) made' in
          isotime-Every f dated timed (
            lowercase-Every (IsOwnNamed mapping p visibility_field) dated lowered lowering
              (normalize-Every lowered g renamed own))
