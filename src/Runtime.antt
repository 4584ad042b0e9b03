-- ===== src/Runtime.antt =====
-- src/cloudnative_threatguard/runtime: the event model and the evaluation of validation runs.
pub mod Events
pub mod Dicts
pub mod Collector
pub mod Pipeline
pub mod Scenarios
pub mod SensorCheck
