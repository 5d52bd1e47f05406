-- ===== src/Tests.antt =====
-- Concrete stand-ins for the crates, test data, and the theorems at concrete inputs.
pub mod Codecs
pub mod Trees
pub mod Crates
pub mod World
pub mod Headers
pub mod Acceptance
pub mod History
pub mod Requeue
pub mod Known
pub mod Ledger
pub mod Work
pub mod Chains
pub mod Branches
pub mod Network
pub mod Node
pub mod Gpu
pub mod Miner
pub mod Wallet
