-- ===== src/Publisher/CsvFile/Settings.antt =====
-- ceilometer/publisher/csvfile.py: how a `CSVFilePublisher` is configured. `str.lower`,
-- `os.path.abspath` and `int` of a string are parameters; `int` gives none for a ValueError.
pub mod Location
use text.Mathlib.Text.{starts_with}
use stx_ceilometer.Prelude.{
  or_else, ℕ, zero, suc, ◌+◌, ◌-◌, ◌*◌, ◌≤◌, ◌<◌, String, ◌≡◌, ◌≢◌, refl, sym, ap, ◌∙◌, subst, Bool,
  true, false, not, ◌&&◌, ◌||◌, ◌↔◌, ◌⊎◌, inl, inr, Option, none, some, List, [], ◌∷◌, ◌++◌, map,
  append-nil, append_assoc, arith, Result, ok, raise, Exception, ◌>>=◌, ◌>>◌, >>=-eq-ok,
  if◌then◌else◌, Bool-cases, Option-cases, ◌==◌, ==_iff, ==_refl, length, contains, All, IsUnique,
  string_eq, ltb, leb, any, all, filter, is_empty,
}
use stx_ceilometer.Prelude.Dict
use stx_ceilometer.Prelude.Int.{ℤ, pos, ltb_ℤ}
use stx_ceilometer.Publisher.CsvFile.{Handler}

-- The file name and the settings of `self.rfh`, behind `self.publisher_logger`.
pub record Logger : Type 0 where
  pub filename : String
  pub handler : Handler

pub record CsvPublisher : Type 0 where
  pub is_enabled : Bool
  pub compress : Bool
  pub location : String
  pub max_bytes : ℤ
  pub backup_count : ℤ
  pub logger : Option Logger

-- The parsed URL: its path, and its query as `parse_qs` gives it.
pub record Url : Type 0 where
  pub path : String
  pub query : List (String × List String)

pub record Conf : Type 0 where
  pub csv_location : String
  pub csv_location_strict : Bool

-- `params.get(k)[0]`, where the key is there; an empty list, which `parse_qs` does not give, is none.
abbrev pub first_of : List (String × List String) → String → Option String
first_of query k = elim (Dict.get query k) [
  | none ↦ none
  | some values ↦ elim values [ [] ↦ none | x ∷ xs ↦ some x ]
]

-- `setup_logger`
unfoldable pub setup_logger : CsvPublisher → CsvPublisher
setup_logger p =
    let handler : Handler = record {
      max_bytes = p.max_bytes;
      backup_count = p.backup_count;
      compress = p.compress;
    } in
    record p { logger = some (record { filename = p.location; handler = handler }) }

-- A publisher as `__init__` sets it first.
abbrev pub initial : String → CsvPublisher
initial path = record {
  is_enabled = true;
  compress = true;
  location = path;
  max_bytes = pos 0;
  backup_count = pos 0;
  logger = none;
}

module _ (lower abspath : String → String) (int : String → Option ℤ) where
  unfoldable pub str2bool : String → Bool
  str2bool v = contains ("yes" ∷ "true" ∷ "t" ∷ "1" ∷ []) (lower v)

  -- The options of the query, in the order of `__init__`; whether `__init__` goes on behind each.
  set_backup_count : Option String → CsvPublisher → Bool × CsvPublisher
  set_backup_count none p = (true, p)
  set_backup_count (some text) p = elim (int text) [
    | none ↦ (false, p)
    | some n ↦ (true, record p { backup_count = n })
  ]

  set_max_bytes : Option String → CsvPublisher → Bool × CsvPublisher
  set_max_bytes none p = (true, p)
  set_max_bytes (some text) p = elim (int text) [
    | none ↦ (false, p)
    | some n ↦ (not (ltb_ℤ n (pos 0)), record p { max_bytes = n })
  ]

  set_flags : Option String → Option String → CsvPublisher → CsvPublisher
  unfolding str2bool
  set_flags compress enabled p = record p {
    compress = elim compress [ none ↦ p.compress | some v ↦ str2bool v ];
    is_enabled = elim enabled [ none ↦ p.is_enabled | some v ↦ str2bool v ];
  }

  unfoldable pub set_options : List (String × List String) → CsvPublisher → CsvPublisher
  unfolding set_backup_count set_max_bytes set_flags
  set_options query p =
      let (counted, p') = set_backup_count (first_of query "backup_count") p in
      let (bounded, p'') = set_max_bytes (first_of query "max_bytes") p' in
      if not counted
      then p'
      else if not bounded
      then p''
      else setup_logger (set_flags (first_of query "compress") (first_of query "enabled") p'')

  -- `__init__`: each `return` leaves the publisher without a logger.
  unfoldable pub csv_publisher : Conf → Url → CsvPublisher
  unfolding set_options
  csv_publisher conf url =
      let resolved = abspath url.path in
      if url.path == "" || lower url.path == "csvfile"
      then initial url.path
      else if not conf.csv_location_strict
      then set_options url.query (initial url.path)
      else if starts_with resolved conf.csv_location
      then set_options url.query (initial resolved)
      else initial resolved

  -- `change_settings`: what is None stays.
  unfoldable pub change_settings :
      Option Bool → Option String → Option ℤ → Option ℤ → Option Bool → CsvPublisher → CsvPublisher
  change_settings enabled location max_bytes backup_count compress p = setup_logger (record p {
    is_enabled = or_else enabled p.is_enabled;
    compress = or_else compress p.compress;
    location = or_else location p.location;
    max_bytes = or_else max_bytes p.max_bytes;
    backup_count = or_else backup_count p.backup_count;
  })
