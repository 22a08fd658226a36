-- ===== src/Publisher/CsvFile/Rollover.antt =====
-- What a rollover of ceilometer/publisher/csvfile.py does to the log and its backups.
use mathlib.Core.Path.{fun_ext}
use stx_ceilometer.Prelude.{
  ℕ, zero, suc, ◌≡◌, ap, ◌∙◌, false, ◌&&◌, inl, inr, none, some, arith, ok, if◌then◌else◌,
  Option-cases, ◌==◌, string_eq, leb, nat_eq, List, ◌<◌, get_elem?, ◌∷◌, take, map, [], true, refl,
  Result, raise, os_error, ==_iff,
}
use stx_ceilometer.Publisher.CsvFile.{
  FileName, base, backup, FileSystem, exists, update, then_do, shift_one, shift, do_rollover,
  Handler, pos, remove_old, remove, rotate, save_base, reopen, rename, file_beq,
}

-- The backups after the loop over `n`: a backup takes the one before it if there is one; it is gone
-- if it moved itself.
abbrev pub shifted : {B : Type 0} → ℕ → FileSystem B → FileSystem B
shifted n fs base = fs base
shifted n fs (backup zero) = fs (backup zero)
shifted n fs (backup (suc i)) =
    if leb 1 i && leb i n && exists fs (backup i)
    then fs (backup i)
    else if leb (suc i) n
    then none
    else fs (backup (suc i))

abbrev moved : {B : Type 0} → ℕ → FileSystem B → FileSystem B
moved i fs =
    if exists fs (backup i)
    then update (update fs (backup (suc i)) (fs (backup i))) (backup i) none
    else fs

shift_one_lem : {B : Type 0} (i : ℕ) (fs : FileSystem B) → shift_one i fs ≡ (ok tt, moved i fs)
unfolding shift_one
shift_one_lem i fs = elim (Option-cases (fs (backup i))) [
  | inl gone ↦ ground arith
  | inr (b, here) ↦
      let differ : (suc i == i) ≡ false = ground arith in
      elim (Option-cases (fs (backup (suc i)))) [
        | inl free ↦ ground arith
        | inr (old, taken) ↦
            let same : update (update (update fs (backup (suc i)) none) (backup (suc i)) (some b))
                  (backup i) none
                ≡ moved i fs =
              fun_ext λ f. ground arith in
            ground arith
      ]
]

shifted_step :
    {B : Type 0} (n : ℕ) (fs : FileSystem B) (f : FileName)
    → shifted n (moved (suc n) fs) f ≡ shifted (suc n) fs f
shifted_step n fs base = ground arith
shifted_step n fs (backup zero) = ground arith
shifted_step n fs (backup (suc i)) = ground arith

shift_lem : {B : Type 0} (n : ℕ) (fs : FileSystem B) → shift n fs ≡ (ok tt, shifted n fs)
unfolding shift then_do
shift_lem zero fs = ap (λ g. (ok tt, g)) (fun_ext λ f. ground arith)
shift_lem (suc n) fs =
    rw (shift_one_lem (suc n) fs)
      (shift_lem n (moved (suc n) fs) ∙ ap (λ g. (ok tt, g)) (fun_ext (shifted_step n fs)))

get_elem?-end :
    {A : Type 0} (xs : List A) (i : ℕ) → get_elem? xs i ≡ none → get_elem? xs (suc i) ≡ none
get_elem?-end [] i h = refl
get_elem?-end (x ∷ xs) zero h = cc
get_elem?-end (x ∷ xs) (suc i) h = get_elem?-end xs i h

get_elem?-take :
    {A : Type 0} (n i : ℕ) (xs : List A) → i < n → get_elem? (take n xs) i ≡ get_elem? xs i
get_elem?-take zero i xs h = absurd (omega arith)
get_elem?-take (suc n) i [] h = refl
get_elem?-take (suc n) zero (x ∷ xs) h = refl
get_elem?-take (suc n) (suc i) (x ∷ xs) h = get_elem?-take n i xs (omega arith)

file_beq-eq : (f g : FileName) → file_beq f g ≡ true → f ≡ g
file_beq-eq base base h = refl
file_beq-eq base (backup j) h = cc
file_beq-eq (backup i) base h = cc
file_beq-eq (backup i) (backup j) h = ap backup ((==_iff i j).0 h)

module _ {B : Type 0} (gzip : B → B) (empty : B) where
  -- The files after a compressing rollover of a log `b` with `suc n` backups.
  abbrev rotated : ℕ → B → FileSystem B → FileSystem B
  rotated n b fs = update (update (shifted n fs) (backup 1) (some (gzip b))) base (some empty)

  remove_old_lem : (f : FileName) (fs : FileSystem B) → remove_old f fs ≡ (ok tt, update fs f none)
  unfolding remove_old remove
  remove_old_lem f fs = elim (Option-cases (fs f)) [
    | inl free ↦
        let same : fs ≡ update fs f none = fun_ext λ g. ground (arith, file_beq-eq f g) in
        ground arith
    | inr (old, taken) ↦ ground arith
  ]

  save_new :
      (fs : FileSystem B) (b : B)
      → fs base ≡ some b
      → then_do (remove_old (backup 1) fs) (save_base gzip empty true)
        ≡ (ok tt, update fs (backup 1) (some (gzip b)))
  unfolding then_do save_base
  save_new fs b log =
      let same : update (update fs (backup 1) none) (backup 1) (some (gzip b))
          ≡ update fs (backup 1) (some (gzip b)) =
        fun_ext λ f. ground arith in
      rw (remove_old_lem (backup 1) fs, then_do, log) (ap (λ g. (ok tt, g)) same)

  move_new :
      (fs : FileSystem B) (b : B)
      → fs base ≡ some b
      → then_do (remove_old (backup 1) fs) (save_base gzip empty false)
        ≡ (ok tt, update (update fs (backup 1) (some b)) base none)
  unfolding then_do save_base rename
  move_new fs b log =
      let same : update (update (update fs (backup 1) none) (backup 1) (some b)) base none
          ≡ update (update fs (backup 1) (some b)) base none =
        fun_ext λ f. ground arith in
      rw (remove_old_lem (backup 1) fs, then_do, log) (ap (λ g. (ok tt, g)) same)

  renew :
      (fs : FileSystem B) (b : B)
      → fs base ≡ some b
      → then_do (remove base fs) (λ last. (ok tt, reopen gzip empty last))
        ≡ (ok tt, update fs base (some empty))
  unfolding then_do remove
  renew fs b log =
      let same : update (update fs base none) base (some empty) ≡ update fs base (some empty) =
        fun_ext λ f. ground arith in
      ground arith

  then_do_assoc :
      (r : Result (Unit {0}) × FileSystem B) (f g : FileSystem B → Result (Unit {0}) × FileSystem B)
      → then_do (then_do r f) g ≡ then_do r (λ fs. then_do (f fs) g)
  unfolding then_do
  then_do_assoc (ok u, fs) f g = refl
  then_do_assoc (raise e, fs) f g = refl

  do_rollover-rotated :
      (h : Handler) (fs : FileSystem B) (n : ℕ) (b : B)
      → h.backup_count ≡ pos (suc n)
      → h.compress ≡ true
      → fs base ≡ some b
      → do_rollover gzip empty h fs ≡ (ok tt, rotated n b fs)
  unfolding do_rollover rotate
  do_rollover-rotated h fs n b count compresses log =
      let moved_up : rotate gzip empty h fs
          ≡ (ok tt, update (shifted n fs) (backup 1) (some (gzip b))) =
        rw (count, compresses)
          (then_do_assoc (shift n fs) (remove_old (backup 1)) (save_base gzip empty true)
            ∙ rw (shift_lem n fs) (save_new (shifted n fs) b log)) in
      then_do_assoc (rotate gzip empty h fs) (remove base) (λ last. (ok tt, reopen gzip empty last))
      ∙ rw moved_up (renew (update (shifted n fs) (backup 1) (some (gzip b))) b log)

  -- The backups are the compressed logs of the list, the newest first, up to the configured number.
  abbrev pub IsHistory : ℕ → List B → FileSystem B → Type 0
  IsHistory count logs fs = (i : ℕ) → i < count → fs (backup (suc i)) ≡ get_elem? (map gzip logs) i

  -- With compression and a number of backups above zero, a rollover raises nothing, leaves an empty
  -- log, and makes the log that was there the newest backup: where the backups held a list of logs,
  -- the newest first, they hold that list with the log in front, cut to the number of backups.
  pub do_rollover-IsHistory :
      (h : Handler) (fs : FileSystem B) (n : ℕ) (b : B) (logs : List B)
      → h.backup_count ≡ pos (suc n)
      → h.compress ≡ true
      → fs base ≡ some b
      → IsHistory (suc n) logs fs
      → ((do_rollover gzip empty h fs).0 ≡ ok tt)
        × ((do_rollover gzip empty h fs).1 base ≡ some empty)
        × IsHistory (suc n) (b ∷ logs) (do_rollover gzip empty h fs).1
  do_rollover-IsHistory h fs n b logs count compresses log history =
      rw (do_rollover-rotated h fs n b count compresses log) (refl, refl, λ i lt. backups i lt)
    where
      backups :
          (i : ℕ) → i < suc n → rotated n b fs (backup (suc i)) ≡ get_elem? (map gzip (b ∷ logs)) i
      backups zero lt = refl
      backups (suc i) lt =
          let here = history i (omega arith) in
          let next = history (suc i) lt in let end = get_elem?-end (map gzip logs) i in ground arith

  -- Without compression, and with a number of backups above zero, a rollover of an existing log
  -- raises OSError: the log was renamed to the first backup, and is then to be removed again. No log
  -- is left.
  pub do_rollover-uncompressed :
      (h : Handler) (fs : FileSystem B) (n : ℕ) (b : B)
      → h.backup_count ≡ pos (suc n)
      → h.compress ≡ false
      → fs base ≡ some b
      → ((do_rollover gzip empty h fs).0 ≡ raise os_error)
        × ((do_rollover gzip empty h fs).1 base ≡ none)
        × ((do_rollover gzip empty h fs).1 (backup 1) ≡ some b)
  unfolding do_rollover rotate remove
  do_rollover-uncompressed h fs n b count plain log =
      let moved_up : rotate gzip empty h fs
          ≡ (ok tt, update (update (shifted n fs) (backup 1) (some b)) base none) =
        rw (count, plain)
          (then_do_assoc (shift n fs) (remove_old (backup 1)) (save_base gzip empty false)
            ∙ rw (shift_lem n fs) (move_new (shifted n fs) b log)) in
      rw moved_up (refl, refl, refl)
