-- ===== src/Forward.antt =====
-- forward.rs: the two-way bridge between the container's loopback and the host's.
pub mod Loopback
pub mod Mirrors
pub mod Protocol
pub mod Loop
pub mod Namespaces
