-- ===== src/Community.antt =====
-- The services of apps/gameplay-service/src/community: what a user does on a neighbor's farm.
pub mod Help
pub mod Thief
pub mod Follow
