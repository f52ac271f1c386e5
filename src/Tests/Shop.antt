-- ===== src/Tests/Shop.antt =====
-- Purchases, an upgrade and deliveries, on the first farm.
use cifarm_server_alternativ.Shop.Stock
use cifarm_server_alternativ.Prelude.{some, none, false, ℤ, pos}
use cifarm_server_alternativ.Entities.{DeliveringProductEntity}
use cifarm_server_alternativ.Shop.Stock.{buy_supplies}
use cifarm_server_alternativ.Gameplay.Wallet
use cifarm_server_alternativ.Gameplay.Inventory

abbrev parcel : ℤ → DeliveringProductEntity
parcel quantity = record {
  id = none;
  user_id = 1;
  quantity = quantity;
  premium = false;
  index = pos 0;
  product_id = some 1;
}
