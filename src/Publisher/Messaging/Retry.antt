-- ===== src/Publisher/Messaging/Retry.antt =====
-- The loop of `_process_queue` of ceilometer/publisher/messaging.py ends after few attempts.
use stx_ceilometer.Prelude.{
  ℕ, zero, suc, ◌+◌, ◌≤◌, ◌≡◌, arith, List, [], ◌∷◌, Option, none, some, length, Result, ok, raise,
  delivery_failure,
}
use stx_ceilometer.Publisher.Messaging.{
  Policy, default, queue, drop_all, Entry, Processed, Send, settle, process_queue,
}

module _ {M W : Type 0} (send : Send M W) (attempts : W → ℕ)
    (counted : (entry : Entry M) (w : W)
      → attempts (send entry.0 entry.1 w).1 ≡ suc (attempts w)) where
  -- A bound on the attempts of a retry, where there is one.
  abbrev Bounded : Option (W → Processed M × W) → W → ℕ → Type 0
  Bounded none w n = Unit
  Bounded (some retry) w n = attempts (retry w).1 ≤ n

  settle-attempts :
      (policy : Policy) (entries : List (Entry M)) (next : W → Processed M × W)
      (again : Option (W → Processed M × W)) (w : W) (result : Result (Unit {0})) (n : ℕ)
      → attempts w ≤ n
      → attempts (next w).1 ≤ n
      → Bounded again w n
      → attempts (settle policy entries next again result w).1 ≤ n
  unfolding settle
  settle-attempts policy entries next again w (ok _) n now a b = a
  settle-attempts queue entries next again w (raise delivery_failure) n now a b = now
  settle-attempts drop_all entries next again w (raise delivery_failure) n now a b = now
  settle-attempts default entries next none w (raise delivery_failure) n now a b = now
  settle-attempts default entries next (some retry) w (raise delivery_failure) n now a b = b
  settle-attempts policy entries next again w (raise other) n now a b = now

  -- However the attempts end, `_process_queue` calls `_send` at most once for each entry and once more
  -- for each retry that is left at its start.
  pub process_queue-attempts :
      (policy : Policy) (left : ℕ) (entries : List (Entry M)) (w : W)
      → attempts (process_queue send policy left entries w).1 ≤ attempts w + length entries + left
  unfolding process_queue
  process_queue-attempts policy left [] w = omega arith
  process_queue-attempts policy zero (entry ∷ rest) w =
      settle-attempts policy (entry ∷ rest) (process_queue send policy zero rest) none
        (send entry.0 entry.1 w).1 (send entry.0 entry.1 w).0
        (attempts w + length (entry ∷ rest) + zero) (omega (arith, counted entry w))
        (omega (
          arith,
          counted entry w,
          process_queue-attempts policy zero rest (send entry.0 entry.1 w).1,
        ))
        tt
  process_queue-attempts policy (suc zero) (entry ∷ rest) w =
      settle-attempts policy (entry ∷ rest) (process_queue send policy (suc zero) rest) none
        (send entry.0 entry.1 w).1 (send entry.0 entry.1 w).0
        (attempts w + length (entry ∷ rest) + suc zero) (omega (arith, counted entry w))
        (omega (
          arith,
          counted entry w,
          process_queue-attempts policy (suc zero) rest (send entry.0 entry.1 w).1,
        ))
        tt
  process_queue-attempts policy (suc (suc left)) (entry ∷ rest) w =
      settle-attempts policy (entry ∷ rest) (process_queue send policy (suc (suc left)) rest)
        (some (process_queue send policy (suc left) (entry ∷ rest))) (send entry.0 entry.1 w).1
        (send entry.0 entry.1 w).0 (attempts w + length (entry ∷ rest) + suc (suc left))
        (omega (arith, counted entry w))
        (omega (
          arith,
          counted entry w,
          process_queue-attempts policy (suc (suc left)) rest (send entry.0 entry.1 w).1,
        ))
        (omega (
          arith,
          counted entry w,
          process_queue-attempts policy (suc left) (entry ∷ rest) (send entry.0 entry.1 w).1,
        ))
