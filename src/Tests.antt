-- ===== src/Tests.antt =====
-- The theorems at concrete inputs, and runs of the model.
mod Sources
mod Sinks
mod Messages
mod Numbers
mod Volumes
mod Contexts
mod Polls
mod Events
mod Files
mod Gnocchi
mod Signatures
mod Arithmetic
mod Api
mod Meters
