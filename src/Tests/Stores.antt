-- ===== src/Tests/Stores.antt =====
-- Small instances of the other interfaces: one lease, one set of jobs, a list of sessions, and the rows of
-- the workers as functions of the keys.
pub mod Leases
pub mod Jobs
pub mod Accounts
pub mod Parcels
