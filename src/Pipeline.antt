-- ===== src/Pipeline.antt =====
-- ceilometer/pipeline.py
pub mod Source
pub mod Publishers
pub mod Sink
pub mod Config
pub mod Publish
