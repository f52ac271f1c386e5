-- ===== src/Worker.antt =====
-- The processes behind the farm: the workers of apps/cron-worker, which let time pass for crops,
-- animals and energy, and the batches that apps/cron-scheduler cuts for them.
pub mod Crop
pub mod Animal
pub mod Energy
pub mod Schedule
pub mod Delivery
pub mod Process
