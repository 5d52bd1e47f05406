-- ===== src/Gpu.antt =====
-- crates/ondris-miner-gpu/src: the reference hash functions, the mining session and the search.
pub mod Blake3Ref
pub mod HashRef
pub mod Session
pub mod Mine
pub mod Kernel
pub mod SelfTest
