-- ===== src/Publisher/Gnocchi/Ending/Searches.antt =====
-- What the searches and updates of ceilometer/publisher/gnocchi.py ask of the client.
use stx_ceilometer.Prelude.{Result-cases, All-append, false, subst}
use stx_ceilometer.Prelude.{
  is_some, String, ◌≡◌, refl, sym, ap, ◌∙◌, Bool, true, inl, inr, Option, none, some, List, [], ◌∷◌,
  ◌++◌, append-nil, append_assoc, arith, Result, ok, raise, Option-cases, All, string_eq,
}
use stx_ceilometer.Prelude.Dict
use stx_ceilometer.Publisher.Gnocchi.Ending.{
  Client, update_resource, set_ended_at, search_all, end_all, associated,
}

-- What the client is asked to do: to search, with what it answers, and to end a resource.
pub data Act (V : Type 0) : Type 0 where
  searched : String → String → List (List (String × V)) → Act V
  ended : V → V → Act V

-- A search that fails finds nothing.
abbrev pub found_of : {V : Type 0} → Result (List (List (String × V))) → List (List (String × V))
found_of (ok found) = found
found_of (raise e) = []

-- A record, in the world, of what the client was asked to do.
pub record Recording {V W : Type 0} (client : Client V W) : Type 0 where
  pub acts : W → List (Act V)
  pub search-acts :
      (type query : String) (w : W)
      → acts (client.search type query w).1
        ≡ acts w ++ searched type query (found_of (client.search type query w).0) ∷ []
  pub update-acts :
      (type id : V) (at : String) (w : W)
      → acts (client.update type id at w).1 ≡ acts w ++ ended type id ∷ []

abbrev pub HasId : {V : Type 0} → List (String × V) → Type 0
HasId resource = is_some (Dict.get resource "id") ≡ true

module _ {V : Type 0} where
  -- The update of a resource, which needs a type and an id.
  abbrev pub end_of : List (String × V) → List (Act V)
  end_of resource = elim (Dict.get resource "type") [
    | none ↦ []
    | some type ↦ elim (Dict.get resource "id") [ none ↦ [] | some id ↦ ended type id ∷ [] ]
  ]

  abbrev pub ends_of : List (List (String × V)) → List (Act V)
  ends_of [] = []
  ends_of (resource ∷ rest) = end_of resource ++ ends_of rest

module _ {V W : Type 0} (client : Client V W) where
  -- The queries are searched for one behind the other, each with the id printed into it; `found` is
  -- what they answer, in that order.
  abbrev pub IsSearched :
      V → List (String × String) → List (Act V) → List (List (String × V)) → Type 0
  IsSearched id [] acts found = (acts ≡ []) × (found ≡ [])
  IsSearched id ((type, query) ∷ rest) acts found =
      (printed : String) × (own : List (List (String × V))) × (acts' : List (Act V))
      × (found' : List (List (String × V))) × (client.format query id ≡ ok printed)
      × (acts ≡ searched type printed own ∷ acts')
      × (found ≡ own ++ found')
      × IsSearched id rest acts' found'

  -- The id, where there is one, can be printed into the query.
  abbrev pub prints : Option V → String × String → Bool
  prints none entry = true
  prints (some id) entry = elim (client.format entry.1 id) [ ok printed ↦ true | raise e ↦ false ]

-- Gnocchi answers a search with resources, each of which has its id.
module _ {V W : Type 0} (client : Client V W) (recording : Recording client)
    (search-HasId : (type query : String) (w : W)
      → All HasId (found_of (client.search type query w).0)) where
  set_ended_at_lem :
      (resource : List (String × V)) (at : String) (w : W)
      → HasId resource
      → ((set_ended_at client resource at w).0 ≡ ok tt)
        × (recording.acts (set_ended_at client resource at w).1
            ≡ recording.acts w ++ end_of resource)
  unfolding set_ended_at update_resource
  set_ended_at_lem resource at w h = elim (Option-cases (Dict.get resource "type")) [
    | inl untyped ↦ let nothing = append-nil (recording.acts w) in ground arith
    | inr (type, typed) ↦ elim (Option-cases (Dict.get resource "id")) [
      | inl nameless ↦ ground arith
      | inr (id, named) ↦ let updated = recording.update-acts type id at w in ground arith
    ]
  ]

  pub end_all_lem :
      (resources : List (List (String × V))) (at : String) (w : W)
      → All HasId resources
      → ((end_all client resources at w).0 ≡ ok tt)
        × (recording.acts (end_all client resources at w).1 ≡ recording.acts w ++ ends_of resources)
  unfolding end_all
  end_all_lem [] at w h = (refl, sym (append-nil (recording.acts w)))
  end_all_lem (resource ∷ rest) at w h =
      let (done, own) = set_ended_at_lem resource at w h.0 in
      let (all_done, later) = end_all_lem rest at (set_ended_at client resource at w).1 h.1 in
      (
        ground arith,
        let appended = append_assoc (recording.acts w) (end_of resource) (ends_of rest) in
            ground arith,
      )

  -- Searches of queries that can be printed raise nothing.
  unfoldable pub AreSearches :
      V → List (String × String) → W → Result (List (List (String × V))) × W → Type 0
  AreSearches id queries w (result, w') =
      (searches : List (Act V)) × (found : List (List (String × V))) × (result ≡ ok found)
      × (recording.acts w' ≡ recording.acts w ++ searches)
      × All HasId found
      × IsSearched client id queries searches found

  search_all-cons :
      (id : V) (type query : String) (rest : List (String × String)) (w : W) (printed : String)
      (others : List (List (String × V)))
      → client.format query id ≡ ok printed
      → (search_all client id rest (client.search type printed w).1).0 ≡ ok others
      → ((search_all client id ((type, query) ∷ rest) w).0
          ≡ ok (found_of (client.search type printed w).0 ++ others))
        × ((search_all client id ((type, query) ∷ rest) w).1
            ≡ (search_all client id rest (client.search type printed w).1).1)
  unfolding search_all
  search_all-cons id type query rest w printed others done result =
      elim (Result-cases (client.search type printed w).0) [
        | inl (e, failed) ↦ ground arith
        | inr (found, ended_well) ↦ ground arith
      ]

  search_all-AreSearches :
      (id : V) (queries : List (String × String)) (w : W)
      → All (λ entry. prints client (some id) entry ≡ true) queries
      → AreSearches id queries w (search_all client id queries w)
  unfolding search_all AreSearches
  search_all-AreSearches id [] w h =
      ([], [], refl, sym (append-nil (recording.acts w)), tt, (refl, refl))
  search_all-AreSearches id ((type, query) ∷ rest) w (own, h) =
      elim (Result-cases (client.format query id)) [
        | inl (e, failed) ↦ ground arith
        | inr (printed, done) ↦
            let found = found_of (client.search type printed w).0 in
            let w' = (client.search type printed w).1 in
            let first = recording.search-acts type printed w in
            let (searches, others, result, recorded, named, each) =
              search_all-AreSearches id rest w' h in
            let (step, same) = search_all-cons id type query rest w printed others done result in
            (
              searched type printed found ∷ searches,
              found ++ others,
              step,
              ap recording.acts same
                  ∙ recorded
                  ∙ ap (λ l. l ++ searches) first
                  ∙ append_assoc (recording.acts w) (searched type printed found ∷ []) searches,
              All-append HasId found others (search-HasId type printed w) named,
              (printed, found, searches, others, done, refl, refl, each),
            )
      ]

  pub associated-AreSearches :
      (queries : List (String × String)) (resource : List (String × V)) (id : V) (w : W)
      → Dict.get resource "id" ≡ some id
      → All (λ entry. prints client (some id) entry ≡ true) queries
      → AreSearches id queries w (associated client queries resource w)
  unfolding associated AreSearches
  associated-AreSearches [] resource id w named h =
      ([], [], refl, sym (append-nil (recording.acts w)), tt, (refl, refl))
  associated-AreSearches (query ∷ rest) resource id w named h =
      let step : associated client (query ∷ rest) resource w
          ≡ search_all client id (query ∷ rest) w =
        ground arith in
      subst (AreSearches id (query ∷ rest) w) (sym step)
        (search_all-AreSearches id (query ∷ rest) w h)
