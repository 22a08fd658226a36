-- ===== src/Agent.antt =====
-- ceilometer/agent/manager.py: the polling agent.
pub mod Discovery
pub mod Polling
