-- ===== src/Pipeline/Publishers.antt =====
-- ceilometer/pipeline.py: `PublisherManager`, and the publishers that `Sink.__init__` asks it for.
-- `load` stands for `publisher.get_publisher`, which imports the driver of a URL.
pub mod Loaded
use Prim.Native.String.{◌++◌ as concat}
use text.Mathlib.Text.{find?}
use stx_ceilometer.Prelude.{
  String, Bool, true, false, Option, none, some, List, [], ◌∷◌, Result, ok, raise, string_eq,
}
use stx_ceilometer.Prelude.Dict

pub record PublisherManager (P : Type 0) : Type 0 where
  pub loaded : List (String × P)

-- `if '://' not in p: p = p + "://"`
unfoldable pub with_scheme : String → String
with_scheme p = elim (find? p "://") [ some i ↦ p | none ↦ concat p "://" ]

module _ {P : Type 0} (load : String → Result P) where
  store_loaded : PublisherManager P → String → Result P → Result P × PublisherManager P
  store_loaded m url (raise e) = (raise e, m)
  store_loaded m url (ok p) = (ok p, record { loaded = Dict.put m.loaded url p })

  unfoldable pub get : PublisherManager P → String → Result P × PublisherManager P
  unfolding store_loaded
  get m url = elim (Dict.get m.loaded url) [
    | some p ↦ (ok p, m)
    | none ↦ store_loaded m url (load url)
  ]

  -- Keeps the URL of a publisher that could be loaded; an exception is logged.
  keep_loaded : String → Result P → List String → List String
  keep_loaded url (ok p) urls = url ∷ urls
  keep_loaded url (raise e) urls = urls

  -- The loop over `cfg['publishers']`.
  unfoldable pub load_publishers :
      PublisherManager P → List String → List String × PublisherManager P
  unfolding keep_loaded with_scheme get
  load_publishers m [] = ([], m)
  load_publishers m (p ∷ ps) =
      let (result, m') = get m (with_scheme p) in
      let (urls, m'') = load_publishers m' ps in (keep_loaded (with_scheme p) result urls, m'')
