-- ===== src/Gameplay.antt =====
-- The services of src/gameplay: energy, levels, gold, tokens, inventories and thefts.
pub mod Energy
pub mod Level
pub mod Wallet
pub mod Inventory
pub mod Thief
pub mod Activity
