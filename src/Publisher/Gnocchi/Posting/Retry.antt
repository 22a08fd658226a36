-- ===== src/Publisher/Gnocchi/Posting/Retry.antt =====
-- What ceilometer/publisher/gnocchi.py posts when resources are missing.
use stx_ceilometer.Prelude.{
  ◌⊎◌, Result, raise, Exception, append_assoc, String, ◌≡◌, List, [], ◌∷◌, ◌++◌, arith, ok,
  string_eq, inl, map, refl, subst, ◌∙◌, sym, inr, ap,
}
use stx_ceilometer.Prelude.Dict
use stx_ceilometer.Publisher.Gnocchi.Measures.{ResourceInfo}
use stx_ceilometer.Publisher.Gnocchi.Posting.{
  Created, Client, State, create_missing, post_again, retry_with, batch_measures, unknown_resources,
}
use stx_ceilometer.Publisher.Gnocchi.Posting.Creating.{
  Recording, AreMissing, IsRest, AreWhole, IsBroken, create_missing-IsCreation,
  extract_resources_lem,
}

module _ {N V W : Type 0} (client : Client N V W) (recording : Recording client) where
  post_again_lem :
      (st : State N V W)
      → ((post_again client st).1.measures ≡ st.measures)
        × (recording.posts (post_again client st).1.world
            ≡ recording.posts st.world ++ st.measures ∷ [])
        × (recording.fates (post_again client st).1.world ≡ recording.fates st.world)
  unfolding post_again
  post_again_lem st =
      let again = recording.post-posts st.measures st.world in
      let kept = recording.post-fates st.measures st.world in ground arith

  -- What a retry did between two states: it posted once more, what is left, or it raised at a
  -- resource whose creation broke.
  abbrev pub IsRetry : List String → State N V W → Result (Unit {0}) → State N V W → Type 0
  IsRetry rids before result after =
      (outcomes : List (String × Created)) × (recording.fates after.world
        ≡ recording.fates before.world ++ outcomes)
      × ((AreWhole client recording outcomes
            × (map (λ f. f.0) outcomes ≡ rids)
            × IsRest client recording outcomes before.measures after.measures
            × (recording.posts after.world ≡ recording.posts before.world ++ after.measures ∷ []))
          ⊎ ((e : Exception) × (result ≡ raise e)
              × IsBroken client recording rids outcomes e
              × (recording.posts after.world ≡ recording.posts before.world)))

  retry_with-IsRetry :
      (entries : List (String × ResourceInfo V)) (st : State N V W)
      → AreMissing client recording (map (λ entry. entry.0) entries) st.measures st.infos
      → IsRetry
          (map (λ entry. entry.0) entries)
          st
          (retry_with client (ok entries) st).0
          (retry_with client (ok entries) st).1
  unfolding retry_with
  retry_with-IsRetry entries st h =
      let made = (create_missing client entries st).1 in
      let (outcomes, same, recorded, ends) =
        create_missing-IsCreation client recording entries st h in
      elim ends [
        | inl (done, wholes, keys, rest) ↦
            let (kept, again, fates_kept) = post_again_lem made in
            let step : retry_with client (ok entries) st ≡ post_again client made = ground arith in
            rw step (
              outcomes,
              fates_kept ∙ recorded,
              inl (
                wholes,
                keys,
                (λ r. ap (λ m. Dict.get m r) kept ∙ rest r),
                again
                    ∙ ap (λ p. p ++ made.measures ∷ []) same
                    ∙ ap (λ m. recording.posts st.world ++ m ∷ []) (sym kept),
              ),
            )
        | inr (e, raised, ended) ↦
            let step : retry_with client (ok entries) st ≡ (raise e, made) = ground arith in
            rw step (outcomes, recorded, inr (e, refl, ended, same))
      ]

  -- What posting a batch did between two states, of which the first post names unknown resources.
  abbrev pub IsPosted : List String → State N V W → Result (Unit {0}) → State N V W → Type 0
  IsPosted rids before result after =
      (outcomes : List (String × Created)) × (recording.fates after.world
        ≡ recording.fates before.world ++ outcomes)
      × ((AreWhole client recording outcomes
            × (map (λ f. f.0) outcomes ≡ rids)
            × IsRest client recording outcomes before.measures after.measures
            × (recording.posts after.world
                ≡ recording.posts before.world ++ before.measures ∷ after.measures ∷ []))
          ⊎ ((e : Exception) × (result ≡ raise e)
              × IsBroken client recording rids outcomes e
              × (recording.posts after.world
                  ≡ recording.posts before.world ++ before.measures ∷ [])))

  -- For a client whose worlds keep a record of what was posted and of how creations ended, and a
  -- first post of all the measures that names unknown resources, each once, which have measures and
  -- entries: the resources are created in that order, up to one whose creation breaks. Where none
  -- does, the batch is then posted exactly once more, with the measures of every resource but those
  -- whose creation ended in an error of the client. Where one breaks, the batch is not posted again,
  -- and its exception is raised.
  pub batch_measures-retry :
      (rids : List String) (st : State N V W)
      → (client.post st.measures st.world).0 ≡ unknown_resources rids
      → AreMissing client recording rids st.measures st.infos
      → IsPosted rids st (batch_measures client st).0 (batch_measures client st).1
  unfolding batch_measures
  batch_measures-retry rids st unknown h =
      let (entries, found, keys) = extract_resources_lem st.infos rids h.2 in
      let w = (client.post st.measures st.world).1 in
      let posted_once = recording.post-posts st.measures st.world in
      let (outcomes, recorded, ends) =
        retry_with-IsRetry entries (record st { world = w })
          (subst (λ ks. AreMissing client recording ks st.measures st.infos) (sym keys) h) in
      let final = (retry_with client (ok entries) (record st { world = w })).1 in
      let step : batch_measures client st
          ≡ retry_with client (ok entries) (record st { world = w }) =
        ground arith in
      let record_kept =
        recorded ∙ ap (λ f. f ++ outcomes) (recording.post-fates st.measures st.world) in
      elim ends [
        | inl (wholes, named, rest, again) ↦ rw step (
          outcomes,
          record_kept,
          inl (
            wholes,
            named ∙ keys,
            rest,
            again
                ∙ ap (λ p. p ++ final.measures ∷ []) posted_once
                ∙ append_assoc (recording.posts st.world) (st.measures ∷ []) (final.measures ∷ []),
          ),
        )
        | inr (e, raised, ended, same) ↦ rw step (
          outcomes,
          record_kept,
          inr (
            e,
            raised,
            subst (λ ks. IsBroken client recording ks outcomes e) keys ended,
            same ∙ posted_once,
          ),
        )
      ]
