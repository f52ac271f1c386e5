-- ===== src/Shop.antt =====
-- The services of apps/gameplay-service/src/shop: what is bought for gold.
pub mod Bought
pub mod Stock
pub mod Farm
pub mod Tiles
