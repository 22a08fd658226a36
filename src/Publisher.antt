-- ===== src/Publisher.antt =====
-- ceilometer/publisher: the publishers.
pub mod Messaging
pub mod CsvFile
pub mod Gnocchi
pub mod Signature
