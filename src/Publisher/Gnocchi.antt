-- ===== src/Publisher/Gnocchi.antt =====
-- ceilometer/publisher/gnocchi.py: the publisher of the Gnocchi service.
pub mod Definition
pub mod Measures
pub mod Posting
pub mod Ending
pub mod Activity
