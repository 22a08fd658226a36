-- ===== src/Publisher/Messaging/Topics.antt =====
-- The topics of single meters in ceilometer/publisher/messaging.py.
use Prim.Native.String.{◌++◌ as concat}
use mathlib.Core.List.Perm
use mathlib.Core.List.{flatten, Perm}
use stx_ceilometer.Prelude.{
  String, ◌≡◌, refl, true, List, [], ◌∷◌, ◌++◌, map, arith, All, ◌==◌, ==_iff, Bool-cases, inl, inr,
  string_eq, ◌∙◌, ap, All-map,
}
use stx_ceilometer.Publisher.Messaging.{Entry, join_run, runs_of, sample_entries}
use stx_ceilometer.Prelude.Sorting.{insert_sorted, sorted, str_le}

module _ {M : Type 0} (counter_name : M → String) where
  insert_sorted-perm : (m : M) (ms : List M) → Perm (insert_sorted counter_name m ms) (m ∷ ms)
  unfolding insert_sorted
  insert_sorted-perm m [] = Perm.rfl
  insert_sorted-perm m (x ∷ xs) = elim (Bool-cases (str_le (counter_name m) (counter_name x))) [
    | inl le ↦ rw le Perm.rfl
    | inr gt ↦ rw gt (Perm.trans (Perm.cons x (insert_sorted-perm m xs)) (Perm.swap m x xs))
  ]

  sorted-perm : (ms : List M) → Perm (sorted counter_name ms) ms
  unfolding sorted
  sorted-perm [] = Perm.rfl
  sorted-perm (m ∷ ms) =
      Perm.trans (insert_sorted-perm m (sorted counter_name ms)) (Perm.cons m (sorted-perm ms))

  abbrev pub messages : List (Entry M) → List M
  messages entries = flatten (map (λ entry. entry.1) entries)

  join_run-messages :
      (m : M) (runs : List (Entry M)) → messages (join_run counter_name m runs) ≡ m ∷ messages runs
  unfolding join_run flatten
  join_run-messages m [] = refl
  join_run-messages m ((name, run) ∷ runs) = ground arith

  runs_of-messages : (ms : List M) → messages (runs_of counter_name ms) ≡ ms
  unfolding runs_of flatten
  runs_of-messages [] = refl
  runs_of-messages (m ∷ ms) =
      join_run-messages m (runs_of counter_name ms) ∙ ap (λ l. m ∷ l) (runs_of-messages ms)

  -- The name of a run is that of each of its messages.
  abbrev IsRun : Entry M → Type 0
  IsRun entry = All (λ m. counter_name m ≡ entry.0) entry.1

  join_run-IsRun :
      (m : M) (runs : List (Entry M)) → All IsRun runs → All IsRun (join_run counter_name m runs)
  unfolding join_run
  join_run-IsRun m [] h = ((refl, tt), tt)
  join_run-IsRun m ((name, run) ∷ runs) h = elim (Bool-cases (counter_name m == name)) [
    | inl same ↦ rw same ((((==_iff (counter_name m) name).0 same, h.0), h.1))
    | inr other ↦ rw other ((refl, tt), h)
  ]

  runs_of-IsRun : (ms : List M) → All IsRun (runs_of counter_name ms)
  unfolding runs_of
  runs_of-IsRun [] = tt
  runs_of-IsRun (m ∷ ms) = join_run-IsRun m (runs_of counter_name ms) (runs_of-IsRun ms)

  abbrev retopic : String → Entry M → Entry M
  retopic topic run = (concat topic (concat "." run.0), run.1)

  retopic-messages :
      (topic : String) (runs : List (Entry M)) → messages (map (retopic topic) runs) ≡ messages runs
  unfolding flatten
  retopic-messages topic [] = refl
  retopic-messages topic ((name, run) ∷ runs) = ap (λ l. run ++ l) (retopic-messages topic runs)

  -- Each message of the entry has the name that the topic ends in.
  abbrev pub IsTopical : String → Entry M → Type 0
  IsTopical topic entry = All (λ m. entry.0 ≡ concat topic (concat "." (counter_name m))) entry.1

  retopic-IsTopical :
      (topic : String) (runs : List (Entry M))
      → All IsRun runs
      → All (IsTopical topic) (map (retopic topic) runs)
  retopic-IsTopical topic [] h = tt
  retopic-IsTopical topic ((name, run) ∷ runs) h = (
    All-map (λ m. counter_name m ≡ name)
        (λ m. concat topic (concat "." name) ≡ concat topic (concat "." (counter_name m))) run
        (λ m e. rw e) h.0,
    retopic-IsTopical topic runs h.1,
  )

  -- With `per_meter_topic` the entry of all messages is followed by entries that together hold the
  -- same messages, each as often, and each in an entry whose topic ends in the message's own name.
  sample_entries-per_meter :
      (topic : String) (meters : List M)
      → (grouped : List (Entry M)) × (sample_entries counter_name true topic meters
          ≡ (topic, meters) ∷ grouped)
        × Perm (messages grouped) meters
        × All (IsTopical topic) grouped
  unfolding sample_entries
  sample_entries-per_meter topic meters =
      let runs = runs_of counter_name (sorted counter_name meters) in
      (
        map (retopic topic) runs,
        refl,
        rw (retopic-messages topic runs)
            (rw (runs_of-messages (sorted counter_name meters)) (sorted-perm meters)),
        retopic-IsTopical topic runs (runs_of-IsRun (sorted counter_name meters)),
      )
