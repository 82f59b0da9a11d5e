-- ===== src/Spec.antt =====
-- spec.rs: from an app's definition to the runtime spec of its container.
pub mod Limits
pub mod Process
pub mod Paths
pub mod Mounts
pub mod Build
pub mod Tests
