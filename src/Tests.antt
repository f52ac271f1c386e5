-- ===== src/Tests.antt =====
-- Concrete inputs: a database in memory, and each theorem with hypotheses applied to it.
pub mod Memory
pub mod Sample
pub mod Stores
pub mod Crops
pub mod Hens
pub mod Claim
pub mod Shop
pub mod Play
pub mod Work
pub mod Election
pub mod Times
pub mod Login
pub mod Requests
pub mod Seeded
