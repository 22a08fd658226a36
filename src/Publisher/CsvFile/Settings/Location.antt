-- ===== src/Publisher/CsvFile/Settings/Location.antt =====
-- Which files a `CSVFilePublisher` of ceilometer/publisher/csvfile.py writes to.
use text.Mathlib.Text.{starts_with}
use stx_ceilometer.Prelude.{
  String, ◌≡◌, refl, true, false, Option, none, some, List, arith, string_eq,
}
use stx_ceilometer.Prelude.Int.{ℤ, pos, ltb_ℤ}
use stx_ceilometer.Publisher.CsvFile.Settings.{
  Logger, CsvPublisher, Url, Conf, initial, set_backup_count, set_max_bytes, set_flags, set_options,
  setup_logger, csv_publisher, first_of,
}

module _ (lower abspath : String → String) (int : String → Option ℤ) where
  -- What the options leave alone.
  abbrev Keeps : CsvPublisher → CsvPublisher → Type 0
  Keeps p q = (q.location ≡ p.location) × (q.logger ≡ p.logger)

  set_backup_count-Keeps :
      (o : Option String) (p : CsvPublisher)
      → Keeps p (set_backup_count lower abspath int o p).1
        × ((set_backup_count lower abspath int o p).1.max_bytes ≡ p.max_bytes)
  unfolding set_backup_count
  set_backup_count-Keeps none p = ((refl, refl), refl)
  set_backup_count-Keeps (some text) p = ground arith

  set_max_bytes-Keeps :
      (o : Option String) (p : CsvPublisher)
      → ltb_ℤ p.max_bytes (pos 0) ≡ false
      → (set_max_bytes lower abspath int o p).0 ≡ true
      → ltb_ℤ (set_max_bytes lower abspath int o p).1.max_bytes (pos 0) ≡ false
  unfolding set_max_bytes
  set_max_bytes-Keeps none p positive h = positive
  set_max_bytes-Keeps (some text) p positive h = ground arith

  set_max_bytes-same :
      (o : Option String) (p : CsvPublisher) → Keeps p (set_max_bytes lower abspath int o p).1
  unfolding set_max_bytes
  set_max_bytes-same none p = (refl, refl)
  set_max_bytes-same (some text) p = ground arith

  set_options-filename :
      (query : List (String × List String)) (path : String) (l : Logger)
      → (set_options lower abspath int query (initial path)).logger ≡ some l
      → (l.filename ≡ path) × (ltb_ℤ l.handler.max_bytes (pos 0) ≡ false)
  unfolding set_options setup_logger set_flags
  set_options-filename query path l h =
      let counted = set_backup_count-Keeps (first_of query "backup_count") (initial path) in
      let p =
        (set_backup_count lower abspath int (first_of query "backup_count") (initial path)).1 in
      let bounded = set_max_bytes-Keeps (first_of query "max_bytes") p in
      let same = set_max_bytes-same (first_of query "max_bytes") p in ground arith

  -- Under `csv_location_strict` a publisher that `__init__` gives a logger writes to a file whose
  -- absolute path starts with `csv_location`, and its `max_bytes` is not negative.
  pub csv_publisher-location :
      (conf : Conf) (url : Url) (l : Logger)
      → conf.csv_location_strict ≡ true
      → (csv_publisher lower abspath int conf url).logger ≡ some l
      → (starts_with l.filename conf.csv_location ≡ true)
        × (ltb_ℤ l.handler.max_bytes (pos 0) ≡ false)
  unfolding csv_publisher
  csv_publisher-location conf url l strict h =
      let named = set_options-filename url.query (abspath url.path) l in ground arith
