-- ===== src/Agent/Polling/Once.antt =====
-- In one cycle of ceilometer/agent/manager.py no pollster polls a resource twice.
use stx_ceilometer.Prelude.{
  String, ◌≡◌, refl, ◌∙◌, subst, Bool, true, inl, inr, Option, none, some, List, [], ◌∷◌, ◌++◌,
  append-nil, arith, Result, ok, raise, if◌then◌else◌, Bool-cases, ◌==◌, ==_iff, ==_refl, contains,
  IsUnique, string_eq, IsUnique-append,
}
use stx_ceilometer.Prelude.{Eq, contains-append}
use stx_ceilometer.Prelude.Dict
use stx_ceilometer.Agent.Polling.{
  Pollster, Resources, Ending, finished, permanent, failed, Outside, Cycle, select, send_each, sent,
  send_batch, poll, get_resources, default_resources, candidates, resources_key, history_of,
  resources_of, settle, poll_one, poll_source, poll_sources, poll_and_notify,
}
use stx_ceilometer.Agent.Polling.Dedupe.{select-history, select-contains, select-IsUnique}

-- One selection: what is polled is new, and what was and is polled is in the history.
select-once :
    {R : Type 0} ⦃e : Eq R⦄ (seen black history xs : List R)
    → IsUnique seen
    → ((r : R) → contains seen r ≡ true → contains history r ≡ true)
    → IsUnique (seen ++ (select black history xs).0)
      × ((r : R)
          → contains (seen ++ (select black history xs).0) r ≡ true
          → contains (select black history xs).1 r ≡ true)
select-once seen black history xs unique recorded =
    let polling = (select black history xs).0 in
    (
      IsUnique-append seen polling unique (select-IsUnique black xs history)
          (λ r m. ground (arith, select-contains black xs history r, recorded r m)),
      λ r m. ground (
        arith,
        contains-append seen polling r,
        select-contains black xs history r,
        select-history black xs history r,
        recorded r,
      ),
    )

module _ {R M W : Type 0} ⦃e : Eq R⦄ (outside : Outside R M W) (batch : Bool)
    (polls : String → W → List R)
    (discover_keeps : (urls : List String) (w : W) (n : String)
      → polls n (outside.discover urls w).1 ≡ polls n w)
    (send_keeps : (ms : List M) (w : W) (n : String)
      → polls n (outside.send_notification ms w).1 ≡ polls n w)
    (get_records : (p : Pollster) (rs : List R) (w : W) (n : String)
      → polls n (outside.get_samples p rs w).1
        ≡ (if p.name == n then polls n w ++ rs else polls n w)) where
  send_each-keeps :
      (ms : List M) (ending : Ending R) (w : W) (n : String)
      → polls n (send_each outside batch ms ending w).1 ≡ polls n w
  unfolding send_each
  send_each-keeps [] ending w n = refl
  send_each-keeps (m ∷ ms) ending w n =
      let w' = (outside.send_notification (m ∷ []) w).1 in
      ground (arith, send_keeps (m ∷ []) w n, send_each-keeps ms ending w' n)

  sent-keeps :
      (r : Result (Unit {0}) × W) (n : String) → polls n (sent outside batch r).1 ≡ polls n r.1
  unfolding sent
  sent-keeps (ok _, w) n = refl
  sent-keeps (raise x, w) n = refl

  send_batch-keeps :
      (ms : List M) (ending : Ending R) (w : W) (n : String)
      → polls n (send_batch outside batch ms ending w).1 ≡ polls n w
  unfolding send_batch
  send_batch-keeps [] ending w n = refl
  send_batch-keeps (m ∷ ms) finished w n =
      sent-keeps (outside.send_notification (m ∷ ms) w) n ∙ send_keeps (m ∷ ms) w n
  send_batch-keeps (m ∷ ms) (permanent rs) w n = refl
  send_batch-keeps (m ∷ ms) failed w n = refl

  poll-records :
      (p : Pollster) (rs : List R) (w : W) (n : String)
      → polls n (poll outside batch p rs w).1 ≡ (if p.name == n then polls n w ++ rs else polls n w)
  unfolding poll
  poll-records p rs w n =
      let (polled, w') = outside.get_samples p rs w in
      ground (
        arith,
        get_records p rs w n,
        send_batch-keeps polled.samples polled.ending w' n,
        send_each-keeps polled.samples polled.ending w' n,
      )

  default_resources-keeps :
      (url : Option String) (w : W) (n : String)
      → polls n (default_resources outside batch url w).1 ≡ polls n w
  unfolding default_resources
  default_resources-keeps none w n = refl
  default_resources-keeps (some url) w n = discover_keeps (url ∷ []) w n

  candidates-keeps :
      (r : Resources R) (p : Pollster) (w : W) (n : String)
      → polls n (candidates outside batch r p w).1 ≡ polls n w
  unfolding candidates
  candidates-keeps r p w n =
      let w' = (get_resources outside batch r w).1 in
      ground (
        arith,
        discover_keeps r.discovery w n,
        default_resources-keeps p.default_discovery w n,
        default_resources-keeps p.default_discovery (outside.discover r.discovery w).1 n,
      )

  -- What a pollster's name has polled in the cycle is without repetition, and in its history.
  abbrev IsOnce : String → Cycle R W → Type 0
  IsOnce n c =
      IsUnique (polls n c.world)
      × ((r : R)
          → contains (polls n c.world) r ≡ true
          → contains (history_of outside batch c n) r ≡ true)

  settle-world :
      (key : String) (out : Ending R × W) (c : Cycle R W)
      → ((settle outside batch key out c).world ≡ out.1)
        × ((settle outside batch key out c).history ≡ c.history)
  unfolding settle
  settle-world key (permanent bad, w) c = (refl, refl)
  settle-world key (finished, w) c = (refl, refl)
  settle-world key (failed, w) c = (refl, refl)

  -- The state behind `poll_one`, for what the name of a pollster has polled and for its history.
  poll_one-polls :
      (source_name : String) (p : Pollster) (c : Cycle R W) (n : String)
      → let r = resources_of outside batch c (resources_key source_name p.name) in
        let found = (candidates outside batch r p c.world).0 in
        let chosen = select r.blacklist (history_of outside batch c p.name) found in
        (polls n (poll_one outside batch source_name p c).world
          ≡ (if p.name == n then polls n c.world ++ chosen.0 else polls n c.world))
        × (history_of outside batch (poll_one outside batch source_name p c) n
            ≡ (if p.name == n then chosen.1 else history_of outside batch c n))
  unfolding poll_one
  poll_one-polls source_name p c n =
      let key = resources_key source_name p.name in
      let r = resources_of outside batch c key in
      let (found, w) = candidates outside batch r p c.world in
      let (polling, history) = select r.blacklist (history_of outside batch c p.name) found in
      let selected : Cycle R W = record c {
        history = Dict.put c.history p.name history;
        world = w;
      } in
      ground (
        arith,
        candidates-keeps r p c.world n,
        poll-records p polling w n,
        settle-world key (poll outside batch p polling w) selected,
        Dict.get-put c.history p.name n history,
        append-nil (polls n c.world),
      )

  poll_one-IsOnce_own :
      (source_name : String) (p : Pollster) (c : Cycle R W)
      → IsOnce p.name c
      → IsOnce p.name (poll_one outside batch source_name p c)
  poll_one-IsOnce_own source_name p c h =
      let r = resources_of outside batch c (resources_key source_name p.name) in
      let found = (candidates outside batch r p c.world).0 in
      let (now, history) = poll_one-polls source_name p c p.name in
      rw (now, history)
        (rw (==_refl p.name) (
          select-once (polls p.name c.world) r.blacklist (history_of outside batch c p.name) found
            h.0 h.1))

  poll_one-IsOnce :
      (source_name : String) (p : Pollster) (c : Cycle R W)
      → ((n : String) → IsOnce n c)
      → (n : String) → IsOnce n (poll_one outside batch source_name p c)
  poll_one-IsOnce source_name p c h n =
      let (now, history) = poll_one-polls source_name p c n in
      elim (Bool-cases (p.name == n)) [
        | inl own ↦
            subst (λ k. IsOnce k (poll_one outside batch source_name p c)) ((==_iff p.name n).0 own)
              (poll_one-IsOnce_own source_name p c (h p.name))
        | inr other ↦ rw (now, history) (rw other (h n))
      ]

  poll_source-IsOnce :
      (source_name : String) (ps : List Pollster) (c : Cycle R W)
      → ((n : String) → IsOnce n c)
      → (n : String) → IsOnce n (poll_source outside batch source_name ps c)
  unfolding poll_source
  poll_source-IsOnce source_name [] c h = h
  poll_source-IsOnce source_name (p ∷ ps) c h =
      poll_source-IsOnce source_name ps (poll_one outside batch source_name p c)
        (poll_one-IsOnce source_name p c h)

  poll_sources-IsOnce :
      (matches : List (String × List Pollster)) (c : Cycle R W)
      → ((n : String) → IsOnce n c)
      → (n : String) → IsOnce n (poll_sources outside batch matches c)
  unfolding poll_sources
  poll_sources-IsOnce [] c h = h
  poll_sources-IsOnce ((source_name, ps) ∷ rest) c h =
      poll_sources-IsOnce rest (poll_source outside batch source_name ps c)
        (poll_source-IsOnce source_name ps c h)

  -- In one polling cycle, whatever sources match it and whatever is discovered, sent or raised, a
  -- pollster is asked for no resource twice: `polls` is any record of the world that `get_samples`
  -- extends by the resources it is asked for, under the pollster's name, and that `discover` and the
  -- notifier leave alone.
  pub poll_and_notify-IsUnique :
      (matches : List (String × List Pollster)) (resources : List (String × Resources R)) (w : W)
      → ((n : String) → polls n w ≡ [])
      → (n : String) → IsUnique (polls n (poll_and_notify outside batch matches resources w).1)
  unfolding poll_and_notify
  poll_and_notify-IsUnique matches resources w none_yet n =
      (poll_sources-IsOnce matches (record { history = []; resources = resources; world = w })
        (λ k. rw (none_yet k) (tt, λ r m. cc)) n).0
