-- ===== src/Player/Purchases.antt =====
-- The six services that sell something (apps/gameplay-service/src/shop and upgrade).
use cifarm_server_alternativ.Prelude.{ℕ, ◌≡◌, true, some, List, ℤ, ◌*ℤ◌}
use cifarm_server_alternativ.Entities.{
  CropEntity, SupplyEntity, AnimalEntity, BuildingEntity, TileEntity, BuildingInfoEntity,
  UpgradeEntity, Position,
}
use cifarm_server_alternativ.Database.{Database, DatabaseLaws}
use cifarm_server_alternativ.Service.{Handler}
use cifarm_server_alternativ.Shop.Stock.{buy_seeds, buy_supplies}
use cifarm_server_alternativ.Shop.Farm.{buy_animal, construct_building}
use cifarm_server_alternativ.Shop.Farm.Build.{HasRoom}
use cifarm_server_alternativ.Shop.Tiles.{buy_tile}
use cifarm_server_alternativ.Shop.Tiles.Order.{IsNext}
use cifarm_server_alternativ.Upgrade.{upgrade_building}
use cifarm_server_alternativ.Upgrade.Step.{IsNextLevel}

pub data Purchase : Type 0 where
  of_seeds : (crop_id : ℕ) (quantity : ℤ) → Purchase
  of_supplies : (supply_id : ℕ) (quantity : ℤ) → Purchase
  of_animal : (animal_id house_id : ℕ) → Position → Purchase
  of_building : (building_id : ℕ) → Position → Purchase
  of_tile : Position → Purchase
  of_upgrade : (placed_item_id : ℕ) → Purchase

module _ (db : Database) (tile_order : List ℕ) (user_id : ℕ) where
  abbrev pub buy : Purchase → Handler db (Unit {0})
  buy (of_seeds crop_id quantity) = buy_seeds db user_id crop_id quantity
  buy (of_supplies supply_id quantity) = buy_supplies db user_id supply_id quantity
  buy (of_animal animal_id house_id at) = buy_animal db user_id animal_id house_id at.x at.y
  buy (of_building building_id at) = construct_building db user_id building_id at.x at.y
  buy (of_tile at) = buy_tile db tile_order user_id at.x at.y
  buy (of_upgrade placed_item_id) = upgrade_building db user_id placed_item_id

  -- The shop offers it to the user at the price: what is sold is available, there is room for an
  -- animal, the kind of the tile is the next one, or the upgrade is that of the next level.
  abbrev pub IsOffered : DatabaseLaws db → Purchase → ℤ → db.State → Type 0
  IsOffered laws (of_seeds crop_id quantity) price s =
      (crop : CropEntity) × (db.find_crop (some crop_id) s ≡ some crop)
      × (crop.available_in_shop ≡ true)
      × (price ≡ crop.price *ℤ quantity)
  IsOffered laws (of_supplies supply_id quantity) price s =
      (supply : SupplyEntity) × (db.find_supply supply_id s ≡ some supply)
      × (supply.available_in_shop ≡ true)
      × (price ≡ supply.price *ℤ quantity)
  IsOffered laws (of_animal animal_id house_id at) price s =
      (animal : AnimalEntity) × (db.find_animal animal_id s ≡ some animal)
      × (animal.available_in_shop ≡ true)
      × HasRoom db laws user_id animal_id house_id at.x at.y s
      × (price ≡ animal.price)
  IsOffered laws (of_building building_id at) price s =
      (building : BuildingEntity) × (db.find_building building_id s ≡ some building)
      × (building.available_in_shop ≡ true)
      × (price ≡ building.price)
  IsOffered laws (of_tile at) price s =
      (tile_id : ℕ) × (tile : TileEntity) × IsNext db user_id s tile_order tile_id
      × (db.find_tile tile_id s ≡ some tile)
      × (tile.available_in_shop ≡ true)
      × (price ≡ tile.price)
  IsOffered laws (of_upgrade placed_item_id) price s =
      (info : BuildingInfoEntity) × (upgrade : UpgradeEntity) × IsNextLevel db laws user_id
        placed_item_id s info upgrade
      × (price ≡ upgrade.upgrade_price)
