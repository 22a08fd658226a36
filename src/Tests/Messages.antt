-- ===== src/Tests/Messages.antt =====
-- The messaging publisher with a concrete transport.
use stx_ceilometer.Prelude.{
  ℕ, zero, suc, ◌+◌, ◌-◌, ◌≤◌, String, ◌≡◌, ◌≢◌, refl, true, false, List, [], ◌∷◌, ◌++◌, arith, ok,
  raise, Exception, if◌then◌else◌, ◌==◌, length, string_eq,
}
use stx_ceilometer.Prelude.{delivery_failure, drop}
use stx_ceilometer.Prelude.Int.{pos}
use stx_ceilometer.Publisher.Messaging.{
  Policy, default, queue, Entry, Publisher, Send, process_queue, flush, sample_entries,
}
use stx_ceilometer.Publisher.Messaging.Queue.{
  Splits, process_queue-Splits, flush-queue, flush-raise,
}
use stx_ceilometer.Publisher.Messaging.Retry.{process_queue-attempts}

-- A transport that records what it delivers, and fails on the topic `down`.
abbrev transport : Send ℕ (List (Entry ℕ))
transport topic ms w =
    if topic == "down" then (raise delivery_failure, w) else (ok tt, w ++ (topic, ms) ∷ [])

transport_ok :
    (entry : Entry ℕ) (w : List (Entry ℕ))
    → (transport entry.0 entry.1 w).0 ≡ ok tt
    → (transport entry.0 entry.1 w).1 ≡ w ++ entry ∷ []
transport_ok entry w h = ground arith

transport_raise :
    (entry : Entry ℕ) (w : List (Entry ℕ)) (e : Exception)
    → (transport entry.0 entry.1 w).0 ≡ raise e
    → (transport entry.0 entry.1 w).1 ≡ w
transport_raise entry w e h = ground arith

abbrev entries : List (Entry ℕ)
entries = ("up", 1 ∷ []) ∷ ("down", 2 ∷ []) ∷ ("up", 3 ∷ []) ∷ []

process_queue-Splits_example :
    Splits transport
      (λ w. w)
      transport_ok
      transport_raise
      queue
      entries
      []
      (process_queue transport queue 0 entries [])
process_queue-Splits_example =
    process_queue-Splits transport (λ w. w) transport_ok transport_raise queue 0 entries []

abbrev publisher : Policy → Publisher ℕ
publisher policy = record {
  per_meter_topic = false;
  policy = policy;
  max_queue_length = pos 2;
  max_retry = pos 100;
  local_queue = entries;
}

abbrev late : List (Entry ℕ)
late = ("up", 4 ∷ []) ∷ []

queue_returns : (flush transport late (publisher queue) []).0 ≡ ok tt
unfolding flush process_queue
queue_returns = refl

-- The oldest entry that was left is dropped: there is room for two.
queue_cut : (flush transport late (publisher queue) []).1.local_queue ≡ ("up", 3 ∷ []) ∷ late
unfolding flush process_queue
queue_cut = refl

flush-queue_example :
    (pending : List (Entry ℕ)) × ((flush transport late (publisher queue) []).2 ++ pending
      ≡ [] ++ entries)
    × ((flush transport late (publisher queue) []).1.local_queue
        ≡ drop (length (pending ++ late) - 2) (pending ++ late))
    × (length (flush transport late (publisher queue) []).1.local_queue ≤ 2)
flush-queue_example =
    flush-queue transport (λ w. w) transport_ok transport_raise late (publisher queue) [] 2 refl
      refl (omega arith) queue_returns

abbrev hasty : Publisher ℕ
hasty = record (publisher default) { max_retry = pos 2 }

default_raises : (flush transport late hasty []).0 ≡ raise delivery_failure
unfolding flush process_queue
default_raises = refl

flush-raise_example :
    (lost : List (Entry ℕ)) × (lost ≢ [])
    × ((flush transport late hasty []).2 ++ lost ≡ [] ++ entries)
    × ((flush transport late hasty []).1.local_queue ≡ late)
flush-raise_example =
    flush-raise transport (λ w. w) transport_ok transport_raise late hasty [] delivery_failure
      default_raises

-- A transport that only counts, and always fails.
abbrev failing : Send ℕ ℕ
failing topic ms w = (raise delivery_failure, suc w)

process_queue-attempts_example :
    (process_queue failing default 5 entries 0).1 ≤ 0 + length entries + 5
process_queue-attempts_example =
    process_queue-attempts failing (λ w. w) (λ entry w. refl) default 5 entries 0

five_attempts : (process_queue failing default 5 entries 0).1 ≡ 5
unfolding process_queue
five_attempts = refl

abbrev parity : ℕ → String
parity zero = "zero"
parity (suc n) = "positive"

three_entries :
    sample_entries parity true "metering" (2 ∷ 0 ∷ 1 ∷ [])
    ≡ ("metering", 2 ∷ 0 ∷ 1 ∷ [])
      ∷ ("metering.positive", 2 ∷ 1 ∷ [])
      ∷ ("metering.zero", 0 ∷ [])
      ∷ []
unfolding sample_entries
three_entries = refl
