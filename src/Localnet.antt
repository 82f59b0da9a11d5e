-- ===== src/Localnet.antt =====
-- localnet.rs: which destinations the LAN relay lets through, and the container's resolv.conf.
pub mod Route
pub mod Egress
pub mod Resolv
pub mod Relay
pub mod Tests
