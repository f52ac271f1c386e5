-- ===== src/Farming.antt =====
-- The services of apps/gameplay-service/src/farming: a user's own crops and animals.
pub mod Crops
pub mod Seeds
pub mod Animals
pub mod Harvest
