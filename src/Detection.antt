-- ===== src/Detection.antt =====
-- src/cloudnative_threatguard/detection/: the rules of the runtime detection and the engine.
pub mod Rules
pub mod Events
pub mod Exec
pub mod Kprobe
pub mod Engine
