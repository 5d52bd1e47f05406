-- ===== src/Network.antt =====
-- crates/ondris-network/src: the encrypted transport (noise.rs) and the messages (lib.rs). The
-- crate snow is a parameter.
pub mod Noise
pub mod Messages
