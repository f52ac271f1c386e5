-- ===== src/Entities/Catalog.antt =====
-- The catalogue: crops, animals, supplies, tiles, buildings and inventory types, which the seeders
-- write and the services only read.
use cifarm_server_alternativ.Prelude.{ℕ, Bool, Option, List, ℤ}
use cifarm_server_alternativ.Entities.Enums.{
  InventoryType, AnimalType, SpinPrizeType, AppearanceChance,
}

pub record CropEntity : Type 0 where
  pub id : ℕ
  pub growth_stage_duration : ℤ
  pub growth_stages : ℤ
  pub price : ℤ
  pub perennial_count : ℤ
  pub min_harvest_quantity : ℤ
  pub max_harvest_quantity : ℤ
  pub available_in_shop : Bool

pub record AnimalEntity : Type 0 where
  pub id : ℕ
  pub yield_time : ℤ
  pub growth_time : ℤ
  pub hunger_time : ℤ
  pub price : ℤ
  pub available_in_shop : Bool
  pub min_harvest_quantity : ℤ
  pub max_harvest_quantity : ℤ
  pub type : AnimalType

pub record SupplyEntity : Type 0 where
  pub id : ℕ
  pub price : ℤ
  pub available_in_shop : Bool
  pub fertilizer_effect_time_reduce : ℤ

pub record TileEntity : Type 0 where
  pub id : ℕ
  pub price : ℤ
  pub max_ownership : ℤ
  pub available_in_shop : Bool

pub record UpgradeEntity : Type 0 where
  pub upgrade_price : ℤ
  pub capacity : ℤ
  pub upgrade_level : ℤ

pub record BuildingEntity : Type 0 where
  pub id : ℕ
  pub price : ℤ
  pub available_in_shop : Bool
  pub type : Option AnimalType
  pub upgrades : List UpgradeEntity

pub record InventoryTypeEntity : Type 0 where
  pub id : ℕ
  pub type : InventoryType
  pub deliverable : Bool
  pub max_stack : ℤ
  pub crop_id : Option ℕ
  pub product_id : Option ℕ

-- A missing amount is `null`.
pub record DailyRewardEntity : Type 0 where
  pub golds : Option ℤ
  pub tokens : Option ℤ
  pub day : ℤ

pub record SpinPrizeEntity : Type 0 where
  pub type : SpinPrizeType
  pub crop_id : Option ℕ
  pub supply_id : Option ℕ
  pub golds : Option ℤ
  pub tokens : Option ℤ
  pub quantity : Option ℤ
  pub appearance_chance : AppearanceChance

-- With the prize, which the query loads.
pub record SpinSlotEntity : Type 0 where
  pub id : ℕ
  pub spin_prize : SpinPrizeEntity
