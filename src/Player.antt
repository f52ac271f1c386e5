-- ===== src/Player.antt =====
-- The requests of a player, in the families that have one form: the care of crops, the care of
-- animals, and purchases.
pub mod Crops
pub mod Animals
pub mod Purchases
