-- ===== src/Event.antt =====
-- ceilometer/event: the definitions of events.
pub mod Converter
