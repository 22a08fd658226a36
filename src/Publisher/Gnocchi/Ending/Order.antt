-- ===== src/Publisher/Gnocchi/Ending/Order.antt =====
-- Which resources ceilometer/publisher/gnocchi.py ends for a batch of events, and in which order.
use stx_ceilometer.Prelude.{subst}
use stx_ceilometer.Prelude.{
  String, ◌≡◌, refl, sym, ap, ◌∙◌, Bool, true, inl, inr, Option, none, some, List, [], ◌∷◌, ◌++◌,
  append-nil, append_assoc, arith, Result, ok, raise, Bool-cases, Option-cases, All, string_eq,
  is_empty,
}
use stx_ceilometer.Prelude.{key_error}
use stx_ceilometer.Prelude.Dict
use stx_ceilometer.Publisher.Gnocchi.Definition.{
  ResourcesDefinition, definition_from_event, event_delete, event_create, event_update, Operation,
}
use stx_ceilometer.Publisher.Gnocchi.Ending.{
  Event, Client, event_attributes, set_ended_at, end_all, associated, delete_event, publish_events,
  on_operation,
}
use stx_ceilometer.Publisher.Gnocchi.Ending.Searches.{
  Act, Recording, found_of, HasId, ends_of, IsSearched, prints, AreSearches, end_all_lem,
  associated-AreSearches,
}

module _ {S V W : Type 0} (client : Client V W) (fnmatch : String → String → Bool)
    (ds : List (ResourcesDefinition S V)) where
  -- The event deletes a resource of the definition, and has no trait with the id of the resource.
  abbrev pub IsNameless : Event V → ResourcesDefinition S V → Type 0
  IsNameless event d =
      (definition_from_event fnmatch ds event.event_type ≡ some (d, event_delete))
      × (Dict.get (event_attributes client d event) "id" ≡ none)

  delete_event-IsNameless :
      (d : ResourcesDefinition S V) (event : Event V) (w : W)
      → Dict.get (event_attributes client d event) "id" ≡ none
      → (delete_event client d event w).0 ≡ raise key_error
  unfolding delete_event associated end_all set_ended_at
  delete_event-IsNameless d event w h =
      elim (Bool-cases (is_empty d.cfg.event_associated_resources)) [
        | inl alone ↦ ground arith
        | inr queries ↦ ground arith
      ]

  -- A deletion without an id raises KeyError out of `publish_events`, whatever events follow it: they
  -- change neither what is raised nor the world that is left.
  pub publish_events-nameless :
      (d : ResourcesDefinition S V) (event : Event V) (events : List (Event V)) (w : W)
      → IsNameless event d
      → ((publish_events client fnmatch ds (event ∷ events) w).0 ≡ raise key_error)
        × (publish_events client fnmatch ds (event ∷ events) w
            ≡ publish_events client fnmatch ds (event ∷ []) w)
  unfolding publish_events
  publish_events-nameless d event events w (matched, nameless) =
      let fails = delete_event-IsNameless d event w nameless in ground arith

module _ {S V W : Type 0} (client : Client V W) (fnmatch : String → String → Bool)
    (ds : List (ResourcesDefinition S V)) (recording : Recording client)
    (search-HasId : (type query : String) (w : W)
      → All HasId (found_of (client.search type query w).0)) where
  -- A deletion: all the searches, and then the ends, the resource of the event first.
  abbrev IsDeletion : List (String × String) → List (String × V) → List (Act V) → Type 0
  IsDeletion queries resource acts =
      (id : V) × (searches : List (Act V)) × (found : List (List (String × V))) × (Dict.get resource
          "id"
        ≡ some id)
      × IsSearched client id queries searches found
      × (acts ≡ searches ++ ends_of (resource ∷ found))

  abbrev IsOfMatch : Option (ResourcesDefinition S V × Operation) → Event V → List (Act V) → Type 0
  IsOfMatch (some (d, event_delete)) event acts =
      IsDeletion d.cfg.event_associated_resources (event_attributes client d event) acts
  IsOfMatch _ event acts = acts ≡ []

  -- The acts of a batch of events, event by event.
  abbrev pub IsOfEvents : List (Event V) → List (Act V) → Type 0
  IsOfEvents [] acts = acts ≡ []
  IsOfEvents (event ∷ events) acts =
      (own : List (Act V)) × (later : List (Act V)) × (acts ≡ own ++ later)
      × IsOfMatch (definition_from_event fnmatch ds event.event_type) event own
      × IsOfEvents events later

  abbrev IsReadyFor : Option (ResourcesDefinition S V × Operation) → Event V → Type 0
  IsReadyFor (some (d, event_delete)) event =
      HasId (event_attributes client d event)
      × All (λ entry. prints client (Dict.get (event_attributes client d event) "id") entry ≡ true)
          d.cfg.event_associated_resources
  IsReadyFor _ event = Unit {0}

  -- A deletion has an id, which the configured queries can be printed with.
  abbrev pub IsReady : Event V → Type 0
  IsReady event = IsReadyFor (definition_from_event fnmatch ds event.event_type) event

  -- What an operation did to the record: it raised nothing.
  AreActs : (List (Act V) → Type 0) → W → Result (Unit {0}) × W → Type 0
  AreActs P w (result, w') =
      (result ≡ ok tt)
      × ((acts : List (Act V)) × (recording.acts w' ≡ recording.acts w ++ acts) × P acts)

  delete_event-AreActs :
      (d : ResourcesDefinition S V) (event : Event V) (w : W)
      → IsReadyFor (some (d, event_delete)) event
      → AreActs (IsOfMatch (some (d, event_delete)) event) w (delete_event client d event w)
  unfolding delete_event AreActs AreSearches
  delete_event-AreActs d event w (has_id, printable) =
      let resource = event_attributes client d event in
      let queries = d.cfg.event_associated_resources in
      elim (Option-cases (Dict.get resource "id")) [
        | inl nameless ↦ ground arith
        | inr (id, named) ↦
            let w' = (associated client queries resource w).1 in
            let (searches, found, result, recorded, named_all, each) =
              associated-AreSearches client recording search-HasId queries resource id w named (
                subst (λ o. All (λ entry. prints client o entry ≡ true) queries) named printable) in
            let (done, ends) =
              end_all_lem client recording search-HasId (resource ∷ found) (client.utcnow w) w'
                (has_id, named_all) in
            let step : delete_event client d event w
                ≡ end_all client (resource ∷ found) (client.utcnow w) w' =
              ground arith in
            subst (AreActs (IsDeletion queries resource) w) (sym step) (
              done,
              (
                searches ++ ends_of (resource ∷ found),
                ends
                    ∙ ap (λ l. l ++ ends_of (resource ∷ found)) recorded
                    ∙ append_assoc (recording.acts w) searches (ends_of (resource ∷ found)),
                (id, searches, found, named, each, refl),
              ),
            )
      ]

  on_operation-AreActs :
      (matched : Option (ResourcesDefinition S V × Operation)) (event : Event V) (w : W)
      → IsReadyFor matched event
      → AreActs (IsOfMatch matched event) w (on_operation client matched event w)
  unfolding AreActs
  on_operation-AreActs none event w h = (refl, ([], sym (append-nil (recording.acts w)), refl))
  on_operation-AreActs (some (d, event_delete)) event w h = delete_event-AreActs d event w h
  on_operation-AreActs (some (d, event_create)) event w h =
      (refl, ([], sym (append-nil (recording.acts w)), refl))
  on_operation-AreActs (some (d, event_update)) event w h =
      (refl, ([], sym (append-nil (recording.acts w)), refl))

  -- For a client whose worlds keep a record of its searches, with what they answer, and of its
  -- updates, and whose searches find only resources with an id: where every deletion has an id that
  -- can be printed into the queries of its definition, all the events are worked through without an
  -- exception. The client is asked, event by event, for the searches of the definition in their
  -- order, and only then to end the resource of the event and the found ones, in their order: each
  -- of them that has a type. A search that fails finds none.
  pub publish_events-ends :
      (events : List (Event V)) (w : W)
      → All IsReady events
      → ((publish_events client fnmatch ds events w).0 ≡ ok tt)
        × ((acts : List (Act V)) × (recording.acts (publish_events client fnmatch ds events w).1
              ≡ recording.acts w ++ acts)
            × IsOfEvents events acts)
  unfolding publish_events AreActs
  publish_events-ends [] w h = (refl, ([], sym (append-nil (recording.acts w)), refl))
  publish_events-ends (event ∷ events) w (ready, h) =
      let matched = definition_from_event fnmatch ds event.event_type in
      let w' = (on_operation client matched event w).1 in
      let (done, (own, first, is_own)) = on_operation-AreActs matched event w ready in
      let (all_done, (later, recorded, are_later)) = publish_events-ends events w' h in
      let step : publish_events client fnmatch ds (event ∷ events) w
          ≡ publish_events client fnmatch ds events w' =
        ground arith in
      rw step (
        all_done,
        (
          own ++ later,
          recorded ∙ ap (λ l. l ++ later) first ∙ append_assoc (recording.acts w) own later,
          (own, later, refl, is_own, are_later),
        ),
      )
