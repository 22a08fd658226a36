-- ===== src/Api/ComplexQuery/Visibility.antt =====
-- Whose data a complex query of ceilometer/api/controllers/v2/query.py can reach.
use stx_ceilometer.Prelude.{
  String, ◌≡◌, refl, sym, ap, ◌∙◌, Bool, true, false, ◌&&◌, inl, inr, Option, none, some, List,
  arith, ok, ◌>>=◌, >>=-eq-ok, Option-cases, string_eq, map_result,
}
use stx_ceilometer.Prelude.Int.{ℤ}
use stx_ceilometer.Prelude.{ok-injective, map_result-ok}
use stx_ceilometer.Api.Rbac.{Request, get_limited_to_project}
use stx_ceilometer.Api.ComplexQuery.{
  Operand, string, Filter, ComplexQuery, Validated, Parsers, validate, traverse_postorder,
  name_mapping, check_project_id, converted, load_given, force_visibility, restrict_to_project,
  refused, orderby_of,
}
use stx_ceilometer.Utils.{lower}
use stx_ceilometer.Api.Query.{enforce_limit}
use stx_ceilometer.Api.ComplexQuery.Traversal.{
  Every, traverse_postorder_same, selects, selects_given,
}
use stx_ceilometer.Api.ComplexQuery.Conversion.{
  is_foreign, converted-Every, check_project_id-Every, check_project_id_same,
}

-- The rows that a request may see that is limited to a project or not.
abbrev pub visible_to :
    {V : Type 0} → Option String → (String → String → Operand V → Bool) → String → Bool
visible_to none holds visibility_field = true
visible_to (some p) holds visibility_field = holds "=" visibility_field (string p)

module _ {V : Type 0} (parsers : Parsers V) (request : Request) where
  -- A validated query had a filter that was read, and one that was made visible.
  validate-parts :
      (default_limit : ℤ) (additional : List (String × String)) (query : ComplexQuery)
      (visibility_field : String) (q : Validated V)
      → validate parsers request default_limit additional query visibility_field ≡ ok q
      → (given : Option (Filter V)) × (load_given parsers
            (name_mapping additional)
            query.filter_text
          ≡ ok given)
        × (force_visibility request visibility_field given ≡ ok q.filter_expr)
  unfolding validate
  validate-parts default_limit additional query vis q h =
      let (given, loaded, h') =
        >>=-eq-ok (load_given parsers (name_mapping additional) query.filter_text) _ h in
      let (seen, forced, h'') = >>=-eq-ok (force_visibility request vis given) _ h' in
      let (o, ordered, h3) =
        >>=-eq-ok (orderby_of parsers (name_mapping additional) query.orderby_text) _ h'' in
      let (n, limited, made) = >>=-eq-ok (enforce_limit default_limit query.limit) _ h3 in
      let same : seen ≡ q.filter_expr = ap (λ r. r.filter_expr) (ok-injective made) in
      (given, loaded, forced ∙ ap ok same)

  force_visibility_limited :
      (p visibility_field : String) (given : Option (Filter V))
      → get_limited_to_project request ≡ some p
      → force_visibility request visibility_field given
        ≡ map_result some (
            traverse_postorder
              (check_project_id p visibility_field)
              (restrict_to_project p visibility_field given))
  unfolding force_visibility
  force_visibility_limited p vis given limited = rw (force_visibility, limited) refl

  force_visibility_unlimited :
      (visibility_field : String) (given : Option (Filter V))
      → get_limited_to_project request ≡ none
      → force_visibility request visibility_field given ≡ ok given
  unfolding force_visibility
  force_visibility_unlimited vis given limited = rw (force_visibility, limited) refl

  restrict-selects :
      (holds : String → String → Operand V → Bool) (p visibility_field : String)
      (given : Option (Filter V))
      → selects holds (restrict_to_project p visibility_field given)
        ≡ (holds "=" visibility_field (string p) && selects_given holds given)
  unfolding selects lower
  restrict-selects holds p vis none = ground arith
  restrict-selects holds p vis (some f) = ground arith

  force_visibility-selects :
      (holds : String → String → Operand V → Bool) (visibility_field : String)
      (given seen : Option (Filter V))
      → force_visibility request visibility_field given ≡ ok seen
      → selects_given holds seen ≡ (
          visible_to (get_limited_to_project request) holds visibility_field
          && selects_given holds given)
  force_visibility-selects holds vis given seen h =
      elim (Option-cases (get_limited_to_project request)) [
        | inl admin ↦
            let same : given ≡ seen =
              ok-injective (sym (force_visibility_unlimited vis given admin) ∙ h) in
            ap (selects_given holds) (sym same)
            ∙ sym (ap (λ o. visible_to o holds vis && selects_given holds given) admin)
        | inr (p, limited) ↦
            let restricted = restrict_to_project p vis given in
            let (g, checked, same) =
              map_result-ok some (traverse_postorder (check_project_id p vis) restricted)
                (sym (force_visibility_limited p vis given limited) ∙ h) in
            let kept =
              traverse_postorder_same (check_project_id p vis) (check_project_id_same p vis)
                restricted g checked in
            ap (selects_given holds) (sym same)
            ∙ ap (selects holds) kept
            ∙ restrict-selects holds p vis given
            ∙ sym (ap (λ o. visible_to o holds vis && selects_given holds given) limited)
      ]

  -- The filter that a validated query is run with selects, of the rows that the converted filter of
  -- the request selects, exactly those whose visibility field is the project that the request is
  -- limited to, and all of them if it is not limited.
  pub validate-selects :
      (holds : String → String → Operand V → Bool) (default_limit : ℤ)
      (additional : List (String × String)) (query : ComplexQuery) (visibility_field : String)
      (given : Option (Filter V)) (q : Validated V)
      → load_given parsers (name_mapping additional) query.filter_text ≡ ok given
      → validate parsers request default_limit additional query visibility_field ≡ ok q
      → selects_given holds q.filter_expr ≡ (
          visible_to (get_limited_to_project request) holds visibility_field
          && selects_given holds given)
  validate-selects holds default_limit additional query vis given q loaded h =
      let (given', loaded', forced) = validate-parts default_limit additional query vis q h in
      let same : given' ≡ given = ok-injective (sym loaded' ∙ loaded) in
      force_visibility-selects holds vis given q.filter_expr
        (ap (force_visibility request vis) (sym same) ∙ forced)

  load_given-some :
      (mapping : List (String × String)) (s : String) (f : Filter V) (given : Option (Filter V))
      → parsers.load_filter s ≡ ok f
      → load_given parsers mapping (some s) ≡ ok given
      → (g : Filter V) × (converted parsers mapping f ≡ ok g) × (some g ≡ given)
  load_given-some mapping s f given parsed loaded =
      map_result-ok some (converted parsers mapping f)
        (sym (ap (λ r. map_result some (refused r >>= converted parsers mapping)) parsed) ∙ loaded)

  -- Of a request that is limited to a project, a query with a filter is validated only if no
  -- comparison of that filter, at any depth, names another project, be it under an alias of the
  -- visibility field.
  pub validate-own :
      (default_limit : ℤ) (additional : List (String × String)) (query : ComplexQuery)
      (visibility_field p s : String) (f : Filter V) (q : Validated V)
      → get_limited_to_project request ≡ some p
      → query.filter_text ≡ some s
      → parsers.load_filter s ≡ ok f
      → validate parsers request default_limit additional query visibility_field ≡ ok q
      → Every
          (λ field value.
            is_foreign (name_mapping additional) p visibility_field field value ≡ false)
          f
  unfolding Every
  validate-own default_limit additional query vis p s f q limited text parsed h =
      let (given, loaded, forced) = validate-parts default_limit additional query vis q h in
      let mapping = name_mapping additional in
      let (g, done, same) =
        load_given-some mapping s f given parsed
          (ap (load_given parsers mapping) (sym text) ∙ loaded) in
      let restricted = restrict_to_project p vis (some g) in
      let (g', checked, same') =
        map_result-ok some (traverse_postorder (check_project_id p vis) restricted) (
          sym (force_visibility_limited p vis (some g) limited)
          ∙ ap (force_visibility request vis) same
          ∙ forced) in
      let own = check_project_id-Every p vis restricted g' checked in
      converted-Every mapping p vis parsers f g done own.1.0
