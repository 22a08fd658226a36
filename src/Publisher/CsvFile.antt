-- ===== src/Publisher/CsvFile.antt =====
-- ceilometer/publisher/csvfile.py: `CompressingRotatingFileHandler`, whose files are one log and its
-- numbered backups. `gzip` is a parameter, as is what an empty file holds.
pub mod Rollover
pub mod Settings
pub mod Rows
use stx_ceilometer.Prelude.{
  ℕ, zero, suc, ◌+◌, ◌-◌, ◌*◌, ◌≤◌, ◌<◌, String, ◌≡◌, ◌≢◌, refl, sym, ap, ◌∙◌, subst, Bool, true,
  false, not, ◌&&◌, ◌||◌, ◌↔◌, ◌⊎◌, inl, inr, Option, none, some, List, [], ◌∷◌, ◌++◌, map,
  append-nil, append_assoc, arith, Result, ok, raise, Exception, ◌>>=◌, ◌>>◌, >>=-eq-ok,
  if◌then◌else◌, Bool-cases, Option-cases, ◌==◌, ==_iff, ==_refl, length, contains, All, IsUnique,
  string_eq, ltb, leb, any, all, filter, is_empty, nat_eq,
}
use stx_ceilometer.Prelude.{os_error, nat_beq}
use stx_ceilometer.Prelude.Int.{ℤ, pos, negsuc}

-- `baseFilename`, and `"%s.%d%s" % (baseFilename, i, compressExtension)`.
pub data FileName : Type 0 where
  base : FileName
  backup : ℕ → FileName

abbrev pub file_beq : FileName → FileName → Bool
file_beq base base = true
file_beq base (backup j) = false
file_beq (backup i) base = false
file_beq (backup i) (backup j) = i == j

-- The contents of the files that exist.
abbrev pub FileSystem : Type 0 → Type 0
FileSystem B = FileName → Option B

abbrev pub exists : {B : Type 0} → FileSystem B → FileName → Bool
exists fs f = elim (fs f) [ none ↦ false | some b ↦ true ]

abbrev pub update : {B : Type 0} → FileSystem B → FileName → Option B → FileSystem B
update fs f content g = if file_beq f g then content else fs g

-- `os.remove`
unfoldable pub remove : {B : Type 0} → FileName → FileSystem B → Result (Unit {0}) × FileSystem B
remove f fs = if exists fs f then (ok tt, update fs f none) else (raise os_error, fs)

-- `os.rename`, which replaces the target.
unfoldable pub rename :
    {B : Type 0} → FileName → FileName → FileSystem B → Result (Unit {0}) × FileSystem B
rename source target fs = elim (fs source) [
  | none ↦ (raise os_error, fs)
  | some b ↦ (ok tt, update (update fs target (some b)) source none)
]

-- A chain of calls: an exception ends it.
unfoldable pub then_do :
    {B : Type 0}
    → Result (Unit {0}) × FileSystem B
    → (FileSystem B → Result (Unit {0}) × FileSystem B)
    → Result (Unit {0}) × FileSystem B
then_do (raise e, fs) next = (raise e, fs)
then_do (ok u, fs) next = next fs

-- `if os.path.exists(f): os.remove(f)`
unfoldable pub remove_old :
    {B : Type 0} → FileName → FileSystem B → Result (Unit {0}) × FileSystem B
unfolding remove
remove_old f fs = if exists fs f then remove f fs else (ok tt, fs)

-- The body of the loop of `doRollover`, for `i`.
unfoldable pub shift_one : {B : Type 0} → ℕ → FileSystem B → Result (Unit {0}) × FileSystem B
unfolding remove_old rename then_do
shift_one i fs =
    if exists fs (backup i)
    then then_do (remove_old (backup (suc i)) fs) (rename (backup i) (backup (suc i)))
    else (ok tt, fs)

-- `for i in range(n, 0, -1)`
unfoldable pub shift : {B : Type 0} → ℕ → FileSystem B → Result (Unit {0}) × FileSystem B
unfolding shift_one
shift zero fs = (ok tt, fs)
shift (suc n) fs = then_do (shift_one (suc n) fs) (shift n)

pub record Handler : Type 0 where
  pub max_bytes : ℤ
  pub backup_count : ℤ
  pub compress : Bool

module _ {B : Type 0} (gzip : B → B) (empty : B) where
  -- Writes the compressed log, which is opened first, to the first backup.
  unfoldable pub compress_base : FileSystem B → Result (Unit {0}) × FileSystem B
  compress_base fs = elim (fs base) [
    | none ↦ (raise os_error, fs)
    | some b ↦ (ok tt, update fs (backup 1) (some (gzip b)))
  ]

  unfoldable pub save_base : Bool → FileSystem B → Result (Unit {0}) × FileSystem B
  unfolding compress_base
  save_base true fs = compress_base fs
  save_base false fs = rename base (backup 1) fs

  -- The statements under `if self.backupCount > 0`.
  unfoldable pub rotate : Handler → FileSystem B → Result (Unit {0}) × FileSystem B
  unfolding shift save_base
  rotate h fs = elim h.backup_count [
    | pos zero ↦ (ok tt, fs)
    | pos (suc n) ↦ then_do (then_do (shift n fs) (remove_old (backup 1))) (save_base h.compress)
    | negsuc n ↦ (ok tt, fs)
  ]

  -- `_open` in mode `a`
  abbrev pub reopen : FileSystem B → FileSystem B
  reopen fs = if exists fs base then fs else update fs base (some empty)

  -- `doRollover`. No stream stays open between calls.
  unfoldable pub do_rollover : Handler → FileSystem B → Result (Unit {0}) × FileSystem B
  unfolding rotate
  do_rollover h fs = then_do (then_do (rotate h fs) (remove base)) (λ last. (ok tt, reopen last))
