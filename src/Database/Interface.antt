-- ===== src/Database/Interface.antt =====
-- The queries and the commit. The fields from `crop_row` on are not called by the services: they
-- say which rows there are, for the laws.
use cifarm_server_alternativ.Prelude.{ℕ, Option, List}
use cifarm_server_alternativ.Result.{Result}
use cifarm_server_alternativ.Entities.{
  UserEntity, PlacedItemEntity, PlacedItemType, SeedGrowthInfoEntity, AnimalInfoEntity,
  InventoryEntity, InventoryTypeEntity, CropEntity, AnimalEntity, SupplyEntity, TileEntity,
  BuildingEntity, DeliveringProductEntity, DailyRewardEntity, SpinSlotEntity, SpinInfo, Activities,
  CropRandomness, AnimalRandomness,
}
use cifarm_server_alternativ.Database.Query.{
  PlacedItemWhere, Relations, InventoryWhere, InventoryTypeWhere,
}
use cifarm_server_alternativ.Database.Statements.{Statement}

pub record Database : Type 1 where
  pub State : Type 0
  pub find_placed_item : PlacedItemWhere → Relations → State → Option PlacedItemEntity
  pub find_user : ℕ → State → Option UserEntity
  pub find_activities : State → Option Activities
  pub find_crop_randomness : State → Option CropRandomness
  pub find_animal_randomness : State → Option AnimalRandomness
  pub find_inventory : InventoryWhere → State → Option InventoryEntity
  pub find_inventories : InventoryWhere → State → List InventoryEntity
  pub find_inventory_type : InventoryTypeWhere → State → Option InventoryTypeEntity
  -- the id of the product of a crop
  pub find_product_of_crop : ℕ → State → Option ℕ
  pub find_crop : Option ℕ → State → Option CropEntity
  pub find_animal : ℕ → State → Option AnimalEntity
  pub find_supply : ℕ → State → Option SupplyEntity
  pub find_tile : ℕ → State → Option TileEntity
  pub find_building : ℕ → State → Option BuildingEntity
  -- the id of the placed item type of that type and catalogue id, and of that id
  pub find_placed_item_type : PlacedItemType → ℕ → State → Option ℕ
  pub find_placed_item_type_by_id : ℕ → State → Option ℕ
  -- how many tiles of a kind a user has in the inventory, and on the farm
  pub count_inventory_tiles : ℕ → ℕ → State → ℕ
  pub count_placed_tiles : ℕ → ℕ → State → ℕ
  -- in the order of their days
  pub find_daily_rewards : State → List DailyRewardEntity
  pub find_spin_slots : State → List SpinSlotEntity
  pub find_spin_info : State → Option SpinInfo
  -- by its id and its user
  pub find_delivering_product : ℕ → ℕ → State → Option DeliveringProductEntity
  -- all statements take effect, or none and the reason is returned
  pub commit : List Statement → State → Result State
  pub crop_row : ℕ → State → Option SeedGrowthInfoEntity
  pub animal_row : ℕ → State → Option AnimalInfoEntity
