-- ===== src/Publisher/Gnocchi/Definition/Deletion.antt =====
-- Which events ceilometer/publisher/gnocchi.py takes for deletions.
use stx_ceilometer.Prelude.{String, ◌≡◌, Bool, true, false, ◌↔◌, some, arith, string_eq}
use stx_ceilometer.Publisher.Gnocchi.Definition.{
  ResourcesDefinition, event_delete, matches_any, event_match,
}

module _ {S V : Type 0} (fnmatch : String → String → Bool) where
  -- A definition takes an event for a deletion just if one of its patterns of deletions matches the
  -- event type and none of its patterns of creations does.
  event_match_iff :
      (d : ResourcesDefinition S V) (event_type : String)
      → (event_match fnmatch d event_type ≡ some event_delete) ↔ (
          (matches_any fnmatch d.cfg.event_create event_type ≡ false)
          × (matches_any fnmatch d.cfg.event_delete event_type ≡ true))
  unfolding event_match
  event_match_iff d event_type = ground arith
