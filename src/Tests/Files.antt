-- ===== src/Tests/Files.antt =====
-- The CSV file publisher with numbers as contents of files, where compression adds one.
use stx_ceilometer.Prelude.{
  ℕ, zero, suc, ◌≡◌, refl, Bool, true, false, none, some, [], ◌∷◌, arith, ok, raise, string_eq,
}
use stx_ceilometer.Prelude.{os_error}
use stx_ceilometer.Prelude.Int.{pos, ltb_ℤ}
use stx_ceilometer.Prelude.Dict
use text.Mathlib.Text.{starts_with}
use stx_ceilometer.Publisher.CsvFile.{base, backup, FileSystem, Handler, do_rollover}
use stx_ceilometer.Publisher.CsvFile.Rollover.{
  IsHistory, do_rollover-IsHistory, do_rollover-uncompressed,
}
use stx_ceilometer.Publisher.CsvFile.Settings.{
  setup_logger, setup_logger, Url, Conf, Logger, csv_publisher,
}
use stx_ceilometer.Publisher.CsvFile.Settings.Location.{csv_publisher-location}

-- A log, and one backup of the log 3.
abbrev files : FileSystem ℕ
files base = some 5
files (backup zero) = none
files (backup (suc zero)) = some 4
files (backup (suc (suc n))) = none

abbrev handler : Bool → Handler
handler compress = record { max_bytes = pos 100; backup_count = pos 2; compress = compress }

files-IsHistory : IsHistory suc 0 2 (3 ∷ []) files
files-IsHistory zero lt = refl
files-IsHistory (suc zero) lt = refl
files-IsHistory (suc (suc i)) lt = absurd (omega arith)

do_rollover-IsHistory_example :
    ((do_rollover suc 0 (handler true) files).0 ≡ ok tt)
    × ((do_rollover suc 0 (handler true) files).1 base ≡ some 0)
    × IsHistory suc 0 2 (5 ∷ 3 ∷ []) (do_rollover suc 0 (handler true) files).1
do_rollover-IsHistory_example =
    do_rollover-IsHistory suc 0 (handler true) files 1 5 (3 ∷ []) refl refl refl files-IsHistory

do_rollover-uncompressed_example :
    ((do_rollover suc 0 (handler false) files).0 ≡ raise os_error)
    × ((do_rollover suc 0 (handler false) files).1 base ≡ none)
    × ((do_rollover suc 0 (handler false) files).1 (backup 1) ≡ some 5)
do_rollover-uncompressed_example =
    do_rollover-uncompressed suc 0 (handler false) files 1 5 refl refl refl

abbrev strict : Conf
strict = record { csv_location = "/var/csv"; csv_location_strict = true }

abbrev url : Url
url = record { path = "/var/csv/cpu"; query = ("max_bytes", "10" ∷ []) ∷ [] }

abbrev cpu_logger : Logger
cpu_logger = record {
  filename = "/var/csv/cpu";
  handler = record { max_bytes = pos 10; backup_count = pos 0; compress = true };
}

csv_publisher_run :
    (csv_publisher (λ s. s) (λ s. s) (λ s. some (pos 10)) strict url).logger ≡ some cpu_logger
unfolding csv_publisher setup_logger Dict.get
csv_publisher_run = refl

csv_publisher-location_example :
    (starts_with cpu_logger.filename strict.csv_location ≡ true)
    × (ltb_ℤ cpu_logger.handler.max_bytes (pos 0) ≡ false)
csv_publisher-location_example =
    csv_publisher-location (λ s. s) (λ s. s) (λ s. some (pos 10)) strict url cpu_logger refl
      csv_publisher_run
