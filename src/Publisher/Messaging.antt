-- ===== src/Publisher/Messaging.antt =====
-- ceilometer/publisher/messaging.py: `MessagingPublisher`, its local queue and its policies. `_send`
-- is a parameter: it acts on a world, and raises DeliveryFailure or another exception.
pub mod Queue
pub mod Retry
pub mod Topics
use Prim.Native.String.{◌++◌ as concat}
use stx_ceilometer.Prelude.{
  map, ℕ, zero, suc, ◌-◌, String, Bool, true, false, ◌&&◌, Option, none, some, List, [], ◌∷◌, ◌++◌,
  Result, ok, raise, Exception, delivery_failure, length, drop, ltb, if◌then◌else◌, ◌==◌, string_eq,
}
use stx_ceilometer.Prelude.Sorting.{sorted}
use stx_ceilometer.Prelude.Int.{ℤ, pos, negsuc}

pub data Policy : Type 0 where
  default queue drop_all : Policy

-- The URL's option; a name that is not known is logged and becomes `default`.
unfoldable pub policy_of : String → Policy
policy_of name = if name == "queue" then queue else if name == "drop" then drop_all else default

-- `self.retry`: how often the driver itself tries.
unfoldable pub driver_retry : Policy → Option ℕ
driver_retry default = none
driver_retry queue = some 1
driver_retry drop_all = some 1

-- An entry of the queue: the topic and its messages.
abbrev pub Entry : Type 0 → Type 0
Entry M = String × List M

pub record Publisher (M : Type 0) : Type 0 where
  pub per_meter_topic : Bool
  pub policy : Policy
  pub max_queue_length : ℤ
  pub max_retry : ℤ
  pub local_queue : List (Entry M)

-- What `_process_queue` returns, or the exception that leaves it.
abbrev pub Processed : Type 0 → Type 0
Processed M = Result (List (Entry M))

abbrev pub Send : Type 0 → Type 0 → Type 0
Send M W = String → List M → W → Result (Unit {0}) × W

module _ {M W : Type 0} where
  -- The `try` of `_process_queue` behind the call of `_send`: `next` goes on without the entry,
  -- `again` with it, where a retry is left.
  settle :
      Policy
      → List (Entry M)
      → (W → Processed M × W)
      → Option (W → Processed M × W)
      → Result (Unit {0})
      → W
      → Processed M × W
  settle policy entries next again (ok _) w = next w
  settle queue entries next again (raise delivery_failure) w = (ok entries, w)
  settle drop_all entries next again (raise delivery_failure) w = (ok [], w)
  settle default entries next none (raise delivery_failure) w = (raise delivery_failure, w)
  settle default entries next (some retry) (raise delivery_failure) w = retry w
  settle policy entries next again (raise e) w = (raise e, w)

-- `max_retry` at the start of the loop, where `current_retry` is 0.
abbrev pub retries : ℤ → ℕ
retries (pos n) = n
retries (negsuc n) = 0

module _ {M W : Type 0} (send : Send M W) where
  -- The `while` loop. `left` stands for `max_retry - current_retry`, at 0 if that is negative; the
  -- test `current_retry >= max_retry` behind the increment is that `left` was at most 1.
  unfoldable pub process_queue : Policy → ℕ → List (Entry M) → W → Processed M × W
  unfolding settle
  process_queue policy left [] w = (ok [], w)
  process_queue policy zero (entry ∷ rest) w =
      let (result, w') = send entry.0 entry.1 w in
      settle policy (entry ∷ rest) (process_queue policy zero rest) none result w'
  process_queue policy (suc zero) (entry ∷ rest) w =
      let (result, w') = send entry.0 entry.1 w in
      settle policy (entry ∷ rest) (process_queue policy (suc zero) rest) none result w'
  process_queue policy (suc (suc left)) (entry ∷ rest) w =
      let (result, w') = send entry.0 entry.1 w in
      settle policy (entry ∷ rest) (process_queue policy (suc (suc left)) rest)
        (some (process_queue policy (suc left) (entry ∷ rest))) result w'

-- `_check_queue_length`
unfoldable pub check_queue_length : {M : Type 0} → ℤ → List (Entry M) → List (Entry M)
check_queue_length (negsuc n) entries = entries
check_queue_length (pos max) entries =
    if ltb max (length entries) && ltb 0 max then drop (length entries - max) entries else entries

-- The second locked block of `flush`.
unfoldable pub put_back : {M : Type 0} → Publisher M → List (Entry M) → List (Entry M)
unfolding check_queue_length
put_back p entries = elim p.policy [
  | queue ↦ check_queue_length p.max_queue_length entries
  | _ ↦ entries
]

module _ {M W : Type 0} (send : Send M W) where
  after_process :
      Publisher M → List (Entry M) → Processed M → W → Result (Unit {0}) × Publisher M × W
  after_process p arrived (raise e) w = (raise e, record p { local_queue = arrived }, w)
  after_process p arrived (ok entries) w =
      (ok tt, record p { local_queue = put_back p (entries ++ arrived) }, w)

  -- `arrived` is what other threads append to `local_queue` while the lock is not held.
  unfoldable pub flush : List (Entry M) → Publisher M → W → Result (Unit {0}) × Publisher M × W
  unfolding after_process put_back process_queue
  flush arrived p w =
      let (processed, w') = process_queue send p.policy (retries p.max_retry) p.local_queue w in
      after_process p arrived processed w'

  -- `publish_samples` and `publish_events` behind the messages: they append to the local queue and
  -- flush it. `grouped` holds the entries of the topics of single meters.
  unfoldable pub enqueue_and_flush :
      List (Entry M) → List (Entry M) → Publisher M → W → Result (Unit {0}) × Publisher M × W
  unfolding flush
  enqueue_and_flush arrived entries p w =
      flush arrived (record p { local_queue = p.local_queue ++ entries }) w

-- `operator.itemgetter('counter_name')` is the parameter `counter_name`.
module _ {M : Type 0} (counter_name : M → String) where
  -- `itertools.groupby`: runs of the same name
  join_run : M → List (Entry M) → List (Entry M)
  join_run m [] = (counter_name m, m ∷ []) ∷ []
  join_run m ((name, run) ∷ runs) =
      if counter_name m == name
      then (name, m ∷ run) ∷ runs
      else (counter_name m, m ∷ []) ∷ (name, run) ∷ runs

  pub runs_of : List M → List (Entry M)
  unfolding join_run
  runs_of [] = []
  runs_of (m ∷ ms) = join_run m (runs_of ms)

  -- What `publish_samples` appends for a list of messages.
  unfoldable pub sample_entries : Bool → String → List M → List (Entry M)
  unfolding sorted runs_of
  sample_entries per_meter_topic topic meters =
      (topic, meters)
      ∷ (if per_meter_topic
          then map (λ run. (concat topic (concat "." run.0), run.1))
              (runs_of (sorted counter_name meters))
          else [])

module _ {S M W : Type 0} (send : Send M W) (message : S → M) (counter_name : M → String) where
  unfoldable pub publish_samples :
      String → List (Entry M) → List S → Publisher M → W → Result (Unit {0}) × Publisher M × W
  unfolding sample_entries enqueue_and_flush
  publish_samples topic arrived samples p w =
      enqueue_and_flush send arrived
        (sample_entries counter_name p.per_meter_topic topic (map message samples)) p w

  unfoldable pub publish_events :
      String → List (Entry M) → List S → Publisher M → W → Result (Unit {0}) × Publisher M × W
  unfolding enqueue_and_flush
  publish_events topic arrived events p w =
      enqueue_and_flush send arrived ((topic, map message events) ∷ []) p w
