-- ===== src/Publisher/Messaging/Queue.antt =====
-- What `_process_queue` and `flush` of ceilometer/publisher/messaging.py do with the entries.
use stx_ceilometer.Prelude.{
  ℕ, zero, suc, ◌≤◌, ◌≡◌, ◌≢◌, refl, sym, ◌∙◌, ap, Option, none, some, List, [], ◌∷◌, ◌++◌,
  append-nil, append_assoc, arith, Result, ok, raise, Exception, delivery_failure, length, drop,
  ◌<◌, ◌-◌, Bool-cases, length-drop, subst, ltb, inl, inr,
}
use stx_ceilometer.Prelude.Int.{pos}
use stx_ceilometer.Publisher.Messaging.{
  Policy, default, queue, drop_all, Entry, Publisher, Processed, Send, settle, process_queue,
  retries, check_queue_length, put_back, after_process, flush,
}

-- What becomes of the entries that were not delivered, under each policy.
abbrev pub Disposes : {M : Type 0} → Processed M → Policy → List (Entry M) → Type 0
Disposes (raise e) policy pending = pending ≢ []
Disposes (ok rest) queue pending = rest ≡ pending
Disposes (ok rest) drop_all pending = rest ≡ []
Disposes (ok rest) default pending = (rest ≡ []) × (pending ≡ [])

check_queue_length-drop :
    {M : Type 0} (max : ℕ) (entries : List (Entry M))
    → 0 < max
    → check_queue_length (pos max) entries ≡ drop (length entries - max) entries
unfolding check_queue_length
check_queue_length-drop max entries h = elim (Bool-cases (ltb max (length entries))) [
  | inl over ↦ ground arith
  | inr fits ↦ let nothing : length entries - max ≡ 0 = ground arith in rw (nothing, fits)
]

put_back-queue :
    {M : Type 0} (p : Publisher M) (max : ℕ) (entries : List (Entry M))
    → p.policy ≡ queue
    → p.max_queue_length ≡ pos max
    → 0 < max
    → (put_back p entries ≡ drop (length entries - max) entries)
      × (length (put_back p entries) ≤ max)
unfolding put_back
put_back-queue p max entries is_queue is_max positive =
    let cut : put_back p entries ≡ drop (length entries - max) entries =
      ground (arith, check_queue_length-drop max entries positive) in
    (cut, rw cut (omega (arith, length-drop (length entries - max) entries)))

module _ {M W : Type 0} (send : Send M W) where
  after_process-queue :
      (arrived : List (Entry M)) (p : Publisher M) (w : W) (max : ℕ) (processed : Processed M)
      (pending : List (Entry M))
      → p.policy ≡ queue
      → p.max_queue_length ≡ pos max
      → 0 < max
      → Disposes processed queue pending
      → (after_process send p arrived processed w).0 ≡ ok tt
      → ((after_process send p arrived processed w).2 ≡ w)
        × ((after_process send p arrived processed w).1.local_queue
            ≡ drop (length (pending ++ arrived) - max) (pending ++ arrived))
        × (length (after_process send p arrived processed w).1.local_queue ≤ max)
  unfolding after_process
  after_process-queue arrived p w max (raise e) pending is_queue is_max positive left h = cc
  after_process-queue arrived p w max (ok entries) pending is_queue is_max positive left h =
      let (cut, fits) = put_back-queue p max (entries ++ arrived) is_queue is_max positive in
      (refl, cut ∙ ap (λ l. drop (length (l ++ arrived) - max) (l ++ arrived)) left, fits)

  after_process-raise :
      (arrived : List (Entry M)) (p : Publisher M) (w : W) (processed : Processed M)
      (lost : List (Entry M)) (policy : Policy) (e : Exception)
      → Disposes processed policy lost
      → (after_process send p arrived processed w).0 ≡ raise e
      → ((after_process send p arrived processed w).2 ≡ w)
        × ((after_process send p arrived processed w).1.local_queue ≡ arrived)
        × (lost ≢ [])
  unfolding after_process
  after_process-raise arrived p w (raise e') lost policy e left h = (refl, refl, left)
  after_process-raise arrived p w (ok entries) lost policy e left h = cc

module _ {M W : Type 0} (send : Send M W) (delivered : W → List (Entry M))
    (on_ok : (entry : Entry M) (w : W)
      → (send entry.0 entry.1 w).0 ≡ ok tt
      → delivered (send entry.0 entry.1 w).1 ≡ delivered w ++ entry ∷ [])
    (on_raise : (entry : Entry M) (w : W) (e : Exception)
      → (send entry.0 entry.1 w).0 ≡ raise e
      → delivered (send entry.0 entry.1 w).1 ≡ delivered w) where
  -- A first part of the entries was delivered, in order; the rest was disposed of.
  abbrev pub Splits : Policy → List (Entry M) → W → Processed M × W → Type 0
  Splits policy entries w out =
      (sent : List (Entry M)) × (pending : List (Entry M)) × (entries ≡ sent ++ pending)
      × (delivered out.1 ≡ delivered w ++ sent)
      × Disposes out.0 policy pending

  nothing_sent :
      (entry : Entry M) (w : W) (e : Exception)
      → (send entry.0 entry.1 w).0 ≡ raise e
      → delivered (send entry.0 entry.1 w).1 ≡ delivered w ++ []
  nothing_sent entry w e failed = on_raise entry w e failed ∙ sym (append-nil (delivered w))

  -- What a retry, where there is one, achieves.
  abbrev Retries : Policy → List (Entry M) → W → Option (W → Processed M × W) → Type 0
  Retries policy entries w none = Unit
  Retries policy entries w (some retry) = Splits policy entries w (retry w)

  settle-Splits :
      (policy : Policy) (entry : Entry M) (rest : List (Entry M)) (next : W → Processed M × W)
      (again : Option (W → Processed M × W)) (w : W) (result : Result (Unit {0}))
      → (send entry.0 entry.1 w).0 ≡ result
      → Splits policy rest (send entry.0 entry.1 w).1 (next (send entry.0 entry.1 w).1)
      → Retries policy (entry ∷ rest) (send entry.0 entry.1 w).1 again
      → Splits policy
          (entry ∷ rest)
          w
          (settle policy (entry ∷ rest) next again result (send entry.0 entry.1 w).1)
  unfolding settle
  settle-Splits policy entry rest next again w (ok _) e (sent, pending, split, done, left) retry = (
    entry ∷ sent,
    pending,
    ap (λ l. entry ∷ l) split,
    done ∙ ap (λ l. l ++ sent) (on_ok entry w e) ∙ append_assoc (delivered w) (entry ∷ []) sent,
    left,
  )
  settle-Splits queue entry rest next again w (raise delivery_failure) e ih retry =
      ([], entry ∷ rest, refl, nothing_sent entry w _ e, refl)
  settle-Splits drop_all entry rest next again w (raise delivery_failure) e ih retry =
      ([], entry ∷ rest, refl, nothing_sent entry w _ e, refl)
  settle-Splits default entry rest next none w (raise delivery_failure) e ih retry =
      ([], entry ∷ rest, refl, nothing_sent entry w _ e, λ empty. cc)
  settle-Splits default entry rest next (some f) w (raise delivery_failure) e ih
        (sent, pending, split, done, left) =
      (sent, pending, split, done ∙ ap (λ l. l ++ sent) (on_raise entry w _ e), left)
  settle-Splits policy entry rest next again w (raise other) e ih retry =
      ([], entry ∷ rest, refl, nothing_sent entry w _ e, λ empty. cc)

  -- `_process_queue` delivers the entries in order up to some point, each once. What is left behind
  -- that point is returned under the policy `queue` and dropped under `drop`; under `default` nothing
  -- is left unless an exception leaves the loop, and an exception leaves it only if something is left.
  pub process_queue-Splits :
      (policy : Policy) (left : ℕ) (entries : List (Entry M)) (w : W)
      → Splits policy entries w (process_queue send policy left entries w)
  unfolding process_queue
  process_queue-Splits queue left [] w = ([], [], refl, sym (append-nil (delivered w)), refl)
  process_queue-Splits drop_all left [] w = ([], [], refl, sym (append-nil (delivered w)), refl)
  process_queue-Splits default left [] w =
      ([], [], refl, sym (append-nil (delivered w)), (refl, refl))
  process_queue-Splits policy zero (entry ∷ rest) w =
      settle-Splits policy entry rest (process_queue send policy zero rest) none w _ refl
        (process_queue-Splits policy zero rest (send entry.0 entry.1 w).1) tt
  process_queue-Splits policy (suc zero) (entry ∷ rest) w =
      settle-Splits policy entry rest (process_queue send policy (suc zero) rest) none w _ refl
        (process_queue-Splits policy (suc zero) rest (send entry.0 entry.1 w).1) tt
  process_queue-Splits policy (suc (suc left)) (entry ∷ rest) w =
      settle-Splits policy entry rest (process_queue send policy (suc (suc left)) rest)
        (some (process_queue send policy (suc left) (entry ∷ rest))) w _ refl
        (process_queue-Splits policy (suc (suc left)) rest (send entry.0 entry.1 w).1)
        (process_queue-Splits policy (suc left) (entry ∷ rest) (send entry.0 entry.1 w).1)

  -- A `flush` that returns under the policy `queue` with a limit above zero has delivered a first part of the local queue, in
  -- order; the rest, with what arrived in the meantime behind it, is the new local queue, less its
  -- oldest entries where it is over `max_queue_length`, which it does not exceed.
  pub flush-queue :
      (arrived : List (Entry M)) (p : Publisher M) (w : W) (max : ℕ)
      → p.policy ≡ queue
      → p.max_queue_length ≡ pos max
      → 0 < max
      → (flush send arrived p w).0 ≡ ok tt
      → (pending : List (Entry M)) × (delivered (flush send arrived p w).2 ++ pending
          ≡ delivered w ++ p.local_queue)
        × ((flush send arrived p w).1.local_queue
            ≡ drop (length (pending ++ arrived) - max) (pending ++ arrived))
        × (length (flush send arrived p w).1.local_queue ≤ max)
  unfolding flush
  flush-queue arrived p w max is_queue is_max positive h =
      let (processed, w') = process_queue send p.policy (retries p.max_retry) p.local_queue w in
      let (sent, pending, split, done, left) =
        process_queue-Splits p.policy (retries p.max_retry) p.local_queue w in
      let (same, kept, fits) =
        after_process-queue send arrived p w' max processed pending is_queue is_max positive
          (subst (λ policy. Disposes processed policy pending) is_queue left) h in
      (
        pending,
        ap (λ v. delivered v ++ pending) same
            ∙ ap (λ l. l ++ pending) done
            ∙ append_assoc (delivered w) sent pending
            ∙ ap (λ l. delivered w ++ l) (sym split),
        kept,
        fits,
      )

  -- A `flush` that an exception leaves has delivered a first part of the local queue, in order; the
  -- rest, of one entry at least, is in no queue afterwards: only what arrived in the meantime is.
  pub flush-raise :
      (arrived : List (Entry M)) (p : Publisher M) (w : W) (e : Exception)
      → (flush send arrived p w).0 ≡ raise e
      → (lost : List (Entry M)) × (lost ≢ [])
        × (delivered (flush send arrived p w).2 ++ lost ≡ delivered w ++ p.local_queue)
        × ((flush send arrived p w).1.local_queue ≡ arrived)
  unfolding flush
  flush-raise arrived p w e h =
      let (processed, w') = process_queue send p.policy (retries p.max_retry) p.local_queue w in
      let (sent, lost, split, done, left) =
        process_queue-Splits p.policy (retries p.max_retry) p.local_queue w in
      let (same, kept, some_lost) =
        after_process-raise send arrived p w' processed lost p.policy e left h in
      (
        lost,
        some_lost,
        ap (λ v. delivered v ++ lost) same
            ∙ ap (λ l. l ++ lost) done
            ∙ append_assoc (delivered w) sent lost
            ∙ ap (λ l. delivered w ++ l) (sym split),
        kept,
      )
