-- ===== src/Api/Query/Projects.antt =====
-- Whose data a query of ceilometer/api/controllers/v2/utils.py can reach.
use stx_ceilometer.Prelude.{
  any-append, All-append, Result-cases, String, ◌≡◌, refl, sym, ap, ◌∙◌, Bool, true, false, inl,
  inr, none, some, List, [], ◌∷◌, ◌++◌, arith, ok, raise, >>=-eq-ok, if◌then◌else◌, Bool-cases,
  ◌==◌, ==_refl, contains, All, string_eq, any, is_empty, ok-injective,
}
use stx_ceilometer.Prelude.{truthy, project_not_authorized}
use stx_ceilometer.Prelude.Dict
use stx_ceilometer.Api.Rbac.{Request, get_limited_to_project}
use stx_ceilometer.Api.Query.{
  validate_timestamp_fields, check_offset, get_query_timestamps, eq, Query, Values,
  get_auth_project, verify_projects, verify_query_segregation, sanitize_query, validate_query,
  check_item, check_items, Gathered, gather_items, Kwargs, kwargs_of, nothing_gathered,
  query_to_kwargs, valid_keys,
}
use stx_ceilometer.Api.Query.Gathering.{is_foreign, is_equation, gather_items-Holds}

verify_projects-ok :
    (p : String) (qs : List Query)
    → verify_projects p qs ≡ ok tt
    → All (λ q. is_foreign p q ≡ false) qs
unfolding verify_projects
verify_projects-ok p [] h = tt
verify_projects-ok p (q ∷ qs) h = elim (Bool-cases (is_foreign p q)) [
  | inl foreign ↦ ground arith
  | inr own ↦ (own, verify_projects-ok p qs (ground arith))
]

verify_projects-raise :
    (p : String) (qs : List Query)
    → any (is_foreign p) qs ≡ true
    → verify_projects p qs ≡ raise project_not_authorized
unfolding verify_projects
verify_projects-raise p [] h = cc
verify_projects-raise p (q ∷ qs) h = ground (arith, verify_projects-raise p qs)

module _ {V T : Type 0} (values : Values V T) where
  check_item-ok :
      (valid : List String) (q : Query) → check_item values valid q ≡ ok tt → is_equation q ≡ true
  unfolding check_item
  check_item-ok valid q h = ground arith

  check_items-ok :
      (valid : List String) (qs : List Query)
      → check_items values valid qs ≡ ok tt
      → All (λ q. is_equation q ≡ true) qs
  unfolding check_items
  check_items-ok valid [] h = tt
  check_items-ok valid (q ∷ qs) h =
      let (u, first, rest) =
        >>=-eq-ok (check_item values valid q) (λ v. check_items values valid qs) h in
      (check_item-ok valid q first, check_items-ok valid qs rest)

module _ (request : Request) (p : String) (limited : get_limited_to_project request ≡ some p)
    (named : (p == "") ≡ false) where
  truthy_own : truthy (get_limited_to_project request) ≡ some p
  truthy_own = rw (limited, named) refl

  verify_own : (qs : List Query) → verify_query_segregation request qs none ≡ verify_projects p qs
  unfolding verify_query_segregation
  verify_own qs = let own = truthy_own in ground arith

  module _ {V T : Type 0} (values : Values V T) where
    -- For a request that is limited to a project, whose name is not empty, a query with an item that
    -- names another project is refused.
    pub query_to_kwargs-foreign :
        (qs : List Query) (args internal_keys : List String) (allow_timestamps : Bool)
        → any (is_foreign p) qs ≡ true
        → query_to_kwargs values request qs args internal_keys allow_timestamps
          ≡ raise project_not_authorized
    unfolding query_to_kwargs validate_query
    query_to_kwargs-foreign [] args internal_keys allow h = cc
    query_to_kwargs-foreign (q ∷ qs) args internal_keys allow h =
        let refused = verify_own (q ∷ qs) ∙ verify_projects-raise p (q ∷ qs) h in rw refused refl

    validate_query-ok :
        (query : List Query) (args internal_keys : List String) (allow : Bool)
        → validate_query values request query args internal_keys allow ≡ ok tt
        → All (λ q. is_equation q ≡ true) query
    unfolding validate_query
    validate_query-ok query args internal_keys allow h =
        let (u, segregated, h') = >>=-eq-ok (verify_query_segregation request query none) _ h in
        let (t, stamped, h'') =
          >>=-eq-ok (validate_timestamp_fields query "timestamp" _ allow) _ h' in
        let (o, shifted, h3) =
          >>=-eq-ok (validate_timestamp_fields query "search_offset" _ allow) _ h'' in
        let (v, allowed, checked) = >>=-eq-ok (check_offset values o t) _ h3 in
        check_items-ok values (valid_keys args internal_keys) query checked

    abbrev own_item : Query
    own_item = record { field = "project_id"; given_op = some eq; value = p; type = none }

    abbrev restricted : List Query → List Query
    restricted query =
        if any (λ q. q.field == "project_id") query then query else query ++ own_item ∷ []

    segregated_by :
        (query : List Query)
        → verify_query_segregation request query (some p) ≡ verify_projects p query
    unfolding verify_query_segregation
    segregated_by query = ground arith

    sanitize_query-restricted :
        (query query' : List Query) (args : List String)
        → contains args "on_behalf_of" ≡ false
        → sanitize_query request query args none ≡ ok query'
        → (verify_projects p query ≡ ok tt) × (query' ≡ restricted query)
    unfolding sanitize_query get_auth_project
    sanitize_query-restricted query query' args behalf h =
        let segregated = segregated_by query in let auth = truthy_own in ground arith

    restricted-All :
        (P : Query → Type 0) (query : List Query)
        → P own_item
        → All P query
        → All P (restricted query)
    restricted-All P query own h = elim (Bool-cases (any (λ q. q.field == "project_id") query)) [
      | inl there ↦ rw there h
      | inr missing ↦ rw missing (All-append P query (own_item ∷ []) h (own, tt))
    ]

    restricted-any :
        (query : List Query) → any (λ q. q.field == "project_id") (restricted query) ≡ true
    restricted-any query = elim (Bool-cases (any (λ q. q.field == "project_id") query)) [
      | inl there ↦ rw there there
      | inr missing ↦
          let both = any-append (λ (q : Query). q.field == "project_id") query (own_item ∷ []) in
          rw missing (both ∙ rw missing refl)
    ]

    kwargs_of-fields :
        (g : Gathered V) (args : List String) (k : Kwargs V T)
        → kwargs_of values g args ≡ ok k
        → k.fields ≡ g.kwargs
    unfolding kwargs_of
    kwargs_of-fields g args k h = elim (Result-cases (get_query_timestamps values g.stamp)) [
      | inl (e, failed) ↦ ground arith
      | inr (b, read) ↦ ground arith
    ]

    -- For a request that is limited to a project, whose name is not empty, and a storage function
    -- without an argument `on_behalf_of`: an accepted query that has an item gives arguments limited
    -- to that project, whatever its items are; the empty query gives no argument `project`.
    pub query_to_kwargs-project :
        (query : List Query) (args internal_keys : List String) (allow_timestamps : Bool)
        (k : Kwargs V T)
        → contains args "on_behalf_of" ≡ false
        → query_to_kwargs values request query args internal_keys allow_timestamps ≡ ok k
        → Dict.get k.fields "project" ≡ (if is_empty query then none else some (values.text p))
    unfolding query_to_kwargs Dict.get
    query_to_kwargs-project [] args internal_keys allow k behalf h =
        ap (λ r. Dict.get r.fields "project") (sym (ok-injective h))
    query_to_kwargs-project (q ∷ qs) args internal_keys allow k behalf h =
        let (u, validated, h') =
          >>=-eq-ok (validate_query values request (q ∷ qs) args internal_keys allow) _ h in
        let (query', sane, h'') = >>=-eq-ok (sanitize_query request (q ∷ qs) args none) _ h' in
        let (g, gathered, made) =
          >>=-eq-ok (gather_items values query' (nothing_gathered values)) _ h'' in
        let (segregated, same) = sanitize_query-restricted (q ∷ qs) query' args behalf sane in
        let own = verify_projects-ok p (q ∷ qs) segregated in
        let equations = validate_query-ok (q ∷ qs) args internal_keys allow validated in
        let gathered' =
          ap (λ l. gather_items values l (nothing_gathered values)) (sym same) ∙ gathered in
        let reflexive = ==_refl p in
        let own_allowed : is_foreign p own_item ≡ false = ground arith in
        let held =
          gather_items-Holds values p false (restricted (q ∷ qs)) (nothing_gathered values) g
            (restricted-All (λ r. is_foreign p r ≡ false) (q ∷ qs) own_allowed own)
            (restricted-All (λ r. is_equation r ≡ true) (q ∷ qs) refl equations) (λ e. cc) gathered'
            (restricted-any (q ∷ qs)) in
        ap (λ d. Dict.get d "project") (kwargs_of-fields g args k made) ∙ held
