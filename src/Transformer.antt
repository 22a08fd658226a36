-- ===== src/Transformer.antt =====
-- ceilometer/transformer: the transformers of a sink's chain.
pub mod Accumulator
pub mod Conversion
pub mod Delta
pub mod Rate
pub mod Aggregator
pub mod Arithmetic
