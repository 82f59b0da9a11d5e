-- ===== src/Runtime.antt =====
-- runtime.rs: the signals that are passed on to a container, its exit code,
-- its root filesystem, and the whole run of an app.
pub mod Signals
pub mod Wait
pub mod Overlay
pub mod Run
pub mod App
