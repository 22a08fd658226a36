-- ===== src/Publisher/Gnocchi/Posting/Creating.antt =====
-- What creating the missing resources does in ceilometer/publisher/gnocchi.py.
use stx_ceilometer.Prelude.Int.{ℤ}
use stx_ceilometer.Prelude.{
  any, ◌⊎◌, append-nil, Result, raise, Exception, is_some, append_assoc, String, ◌≡◌, Bool, true,
  false, ◌&&◌, none, List, [], ◌∷◌, ◌++◌, arith, ok, if◌then◌else◌, ==_iff, contains, All, IsUnique,
  string_eq, Bool-cases, Option-cases, inl, map, ◌==◌, refl, subst, ◌∙◌, sym, inr, ap,
}
use stx_ceilometer.Prelude.Dict
use stx_ceilometer.Publisher.Gnocchi.Measures.{Measures, ResourceInfo}
use stx_ceilometer.Publisher.Gnocchi.Posting.{
  Created, created, already_exists, client_error, broken, Client, State, delete_key, after_create,
  create_missing, extract_resources,
}

-- `k in d`
abbrev pub has : {V : Type 0} → List (String × V) → String → Bool
has d k = is_some (Dict.get d k)

abbrev pub is_client_error : Created → Bool
is_client_error client_error = true
is_client_error _ = false

abbrev pub is_broken : Created → Bool
is_broken (broken e) = true
is_broken _ = false

-- A resource that could not be created, of a list of resources with how their creation ended.
abbrev pub is_lost : List (String × Created) → String → Bool
is_lost fates r = any (λ f. f.0 == r && is_client_error f.1) fates

has-remove :
    {V : Type 0} (d : List (String × V)) (k : String) (ks : List String)
    → contains ks k ≡ false
    → All (λ j. has d j ≡ true) ks
    → All (λ j. has (Dict.remove d k) j ≡ true) ks
has-remove d k [] fresh h = tt
has-remove d k (j ∷ js) fresh h = (
  ground (arith, Dict.get-remove d k j, ==_iff k j, ==_iff j k, h.0),
  has-remove d k js (ground arith) h.1,
)

delete_key_lem :
    {V : Type 0} (d : List (String × V)) (k : String)
    → has d k ≡ true
    → delete_key d k ≡ ok (Dict.remove d k)
delete_key_lem d k h = ground arith

pub extract_resources_lem :
    {V : Type 0} (infos : List (String × ResourceInfo V)) (rids : List String)
    → All (λ r. has infos r ≡ true) rids
    → (entries : List (String × ResourceInfo V)) × (extract_resources infos rids ≡ ok entries)
      × (map (λ entry. entry.0) entries ≡ rids)
unfolding extract_resources
extract_resources_lem infos [] h = ([], refl, refl)
extract_resources_lem infos (rid ∷ rids) (own, h) =
    let (entries, found, keys) = extract_resources_lem infos rids h in
    elim (Option-cases (Dict.get infos rid)) [
      | inl missing ↦ ground arith
      | inr (info, here) ↦ ((rid, info) ∷ entries, ground arith, ap (λ ks. rid ∷ ks) keys)
    ]

-- A record, in the world, of what the client posted, and of the resources that it created with how
-- that ended.
pub record Recording {N V W : Type 0} (client : Client N V W) : Type 0 where
  pub posts : W → List (Measures N)
  pub fates : W → List (String × Created)
  pub post-posts : (m : Measures N) (w : W) → posts (client.post m w).1 ≡ posts w ++ m ∷ []
  pub post-fates : (m : Measures N) (w : W) → fates (client.post m w).1 ≡ fates w
  pub create-posts :
      (rid : String) (info : ResourceInfo V) (w : W) → posts (client.create rid info w).1 ≡ posts w
  pub create-fates :
      (rid : String) (info : ResourceInfo V) (w : W)
      → fates (client.create rid info w).1 ≡ fates w ++ (rid, (client.create rid info w).0) ∷ []
  pub cache_set-posts : (rid : String) (h : ℤ) (w : W) → posts (client.cache_set rid h w) ≡ posts w
  pub cache_set-fates : (rid : String) (h : ℤ) (w : W) → fates (client.cache_set rid h w) ≡ fates w

module _ {N V W : Type 0} (client : Client N V W) (recording : Recording client) where
  -- The resources of the list stand in both dicts, each once.
  abbrev pub AreMissing : List String → Measures N → List (String × ResourceInfo V) → Type 0
  AreMissing rids measures infos =
      IsUnique rids × All (λ r. has measures r ≡ true) rids × All (λ r. has infos r ≡ true) rids

  -- The measures are those of `before`, without the resources that could not be created.
  abbrev pub IsRest : List (String × Created) → Measures N → Measures N → Type 0
  IsRest outcomes before after =
      (r : String) → Dict.get after r ≡ (if is_lost outcomes r then none else Dict.get before r)

  abbrev pub AreWhole : List (String × Created) → Type 0
  AreWhole outcomes = All (λ f. is_broken f.1 ≡ false) outcomes

  -- The creations went through the list up to one that broke.
  abbrev pub IsBroken : List String → List (String × Created) → Exception → Type 0
  IsBroken rids outcomes e =
      (done : List (String × Created)) × (rid : String) × (left : List String) × AreWhole done
      × (outcomes ≡ done ++ (rid, broken e) ∷ [])
      × (map (λ f. f.0) done ++ rid ∷ left ≡ rids)

  -- What creating the resources of a list did between two states: it either went through all of
  -- them, or ended at one whose creation broke.
  abbrev pub IsCreation : List String → State N V W → Result (Unit {0}) → State N V W → Type 0
  IsCreation rids before result after =
      (outcomes : List (String × Created)) × (recording.posts after.world
        ≡ recording.posts before.world)
      × (recording.fates after.world ≡ recording.fates before.world ++ outcomes)
      × (((result ≡ ok tt)
            × AreWhole outcomes
            × (map (λ f. f.0) outcomes ≡ rids)
            × IsRest outcomes before.measures after.measures)
          ⊎ ((e : Exception) × (result ≡ raise e) × IsBroken rids outcomes e))

  after_create_lem :
      (rid : String) (info : ResourceInfo V) (fate : Created) (st : State N V W)
      → has st.measures rid ≡ true
      → has st.infos rid ≡ true
      → is_broken fate ≡ false
      → ((after_create client rid info fate st).0 ≡ ok tt)
        × ((after_create client rid info fate st).1.measures
            ≡ (if is_client_error fate then Dict.remove st.measures rid else st.measures))
        × ((after_create client rid info fate st).1.infos
            ≡ (if is_client_error fate then Dict.remove st.infos rid else st.infos))
        × (recording.posts (after_create client rid info fate st).1.world
            ≡ recording.posts st.world)
        × (recording.fates (after_create client rid info fate st).1.world
            ≡ recording.fates st.world)
  unfolding after_create
  after_create_lem rid info fate st measured known whole =
      let deleted = delete_key_lem st.measures rid measured in
      let forgotten = delete_key_lem st.infos rid known in
      ground (
        arith,
        recording.cache_set-posts rid (client.hash info.resource_extra) st.world,
        recording.cache_set-fates rid (client.hash info.resource_extra) st.world,
      )

  All-kept :
      {X : Type 0} (d after : List (String × X)) (rid : String) (fate : Created) (ks : List String)
      → after ≡ (if is_client_error fate then Dict.remove d rid else d)
      → contains ks rid ≡ false
      → All (λ j. has d j ≡ true) ks
      → All (λ j. has after j ≡ true) ks
  All-kept d after rid fate ks same fresh h =
      let removed = has-remove d rid ks fresh h in
      elim (Bool-cases (is_client_error fate)) [
        | inl gone ↦ subst (λ x. All (λ j. has x j ≡ true) ks) (sym (same ∙ rw gone refl)) removed
        | inr stays ↦ subst (λ x. All (λ j. has x j ≡ true) ks) (sym (same ∙ rw stays refl)) h
      ]

  IsRest-cons :
      (rid : String) (fate : Created) (outcomes : List (String × Created))
      (before middle after : Measures N)
      → middle ≡ (if is_client_error fate then Dict.remove before rid else before)
      → IsRest outcomes middle after
      → IsRest ((rid, fate) ∷ outcomes) before after
  IsRest-cons rid fate outcomes before middle after same rest r =
      let later = rest r in
      let removed = Dict.get-remove before rid r in
      elim (Bool-cases (is_client_error fate)) [
        | inl gone ↦ elim (Bool-cases (rid == r)) [
          | inl own ↦ ground arith
          | inr other ↦ ground arith
        ]
        | inr stays ↦ ground arith
      ]

  -- The two steps of creating a resource.
  unfoldable created_state : String → ResourceInfo V → State N V W → State N V W
  created_state rid info st =
      (after_create client rid info (client.create rid info st.world).0
        (record st { world = (client.create rid info st.world).1 })).1

  IsCreation-cons :
      (rid : String) (fate : Created) (rids : List String) (before middle after : State N V W)
      (result : Result (Unit {0}))
      → is_broken fate ≡ false
      → recording.posts middle.world ≡ recording.posts before.world
      → recording.fates middle.world ≡ recording.fates before.world ++ (rid, fate) ∷ []
      → middle.measures
        ≡ (if is_client_error fate then Dict.remove before.measures rid else before.measures)
      → IsCreation rids middle result after
      → IsCreation (rid ∷ rids) before result after
  IsCreation-cons rid fate rids before middle after result whole same first ms
        (outcomes, posted_same, recorded, ends) =
      let longer : recording.fates after.world
          ≡ recording.fates before.world ++ (rid, fate) ∷ outcomes =
        recorded
        ∙ ap (λ l. l ++ outcomes) first
        ∙ append_assoc (recording.fates before.world) ((rid, fate) ∷ []) outcomes in
      elim ends [
        | inl (done, wholes, keys, rest) ↦ (
          (rid, fate) ∷ outcomes,
          posted_same ∙ same,
          longer,
          inl (
            done,
            (whole, wholes),
            ap (λ ks. rid ∷ ks) keys,
            IsRest-cons rid fate outcomes before.measures middle.measures after.measures ms rest,
          ),
        )
        | inr (e, raised, (done, last, left, wholes, list, keys)) ↦ (
          (rid, fate) ∷ outcomes,
          posted_same ∙ same,
          longer,
          inr (
            e,
            raised,
            (
              (rid, fate) ∷ done,
              last,
              left,
              (whole, wholes),
              ap (λ l. (rid, fate) ∷ l) list,
              ap (λ ks. rid ∷ ks) keys,
            ),
          ),
        )
      ]

  broken-cases : (fate : Created) → ((e : Exception) × (fate ≡ broken e)) ⊎ (is_broken fate ≡ false)
  broken-cases created = inr refl
  broken-cases already_exists = inr refl
  broken-cases client_error = inr refl
  broken-cases (broken e) = inl (e, refl)

  create_missing-step :
      (rid : String) (info : ResourceInfo V) (rest : List (String × ResourceInfo V))
      (st : State N V W)
      → (after_create client rid info
          (client.create rid info st.world).0
          (record st { world = (client.create rid info st.world).1 })).0
        ≡ ok tt
      → create_missing client ((rid, info) ∷ rest) st
        ≡ create_missing client rest (created_state rid info st)
  unfolding create_missing created_state
  create_missing-step rid info rest st done = ground arith

  create_missing-broken :
      (rid : String) (info : ResourceInfo V) (rest : List (String × ResourceInfo V))
      (st : State N V W) (e : Exception)
      → (client.create rid info st.world).0 ≡ broken e
      → create_missing client ((rid, info) ∷ rest) st
        ≡ (raise e, record st { world = (client.create rid info st.world).1 })
  unfolding create_missing after_create
  create_missing-broken rid info rest st e breaks = ground arith

  pub create_missing-IsCreation :
      (entries : List (String × ResourceInfo V)) (st : State N V W)
      → AreMissing (map (λ entry. entry.0) entries) st.measures st.infos
      → IsCreation
          (map (λ entry. entry.0) entries)
          st
          (create_missing client entries st).0
          (create_missing client entries st).1
  unfolding create_missing created_state
  create_missing-IsCreation [] st h =
      ([], refl, sym (append-nil (recording.fates st.world)), inl (refl, tt, refl, λ r. refl))
  create_missing-IsCreation ((rid, info) ∷ rest) st (u, measured, known) =
      let fate = (client.create rid info st.world).0 in
      let w = (client.create rid info st.world).1 in
      let keys = map (λ (entry : String × ResourceInfo V). entry.0) rest in
      let own = recording.create-posts rid info st.world in
      let named = recording.create-fates rid info st.world in
      elim (broken-cases fate) [
        | inl (e, breaks) ↦ rw (create_missing-broken rid info rest st e breaks) (
          (rid, broken e) ∷ [],
          own,
          named ∙ ap (λ f. recording.fates st.world ++ (rid, f) ∷ []) breaks,
          inr (e, refl, ([], rid, keys, tt, refl, refl)),
        )
        | inr whole ↦
            let st' = created_state rid info st in
            let (done, ms, is, same, kept) =
              after_create_lem rid info fate (record st { world = w }) measured.0 known.0 whole in
            let later = create_missing-IsCreation rest st' (
              u.1,
              All-kept st.measures st'.measures rid fate keys ms u.0 measured.1,
              All-kept st.infos st'.infos rid fate keys is u.0 known.1,
            ) in
            rw (create_missing-step rid info rest st done) (
              IsCreation-cons rid fate keys st st' (create_missing client rest st').1
                (create_missing client rest st').0 whole (same ∙ own) (kept ∙ named) ms later)
      ]
