-- ===== src/Database/Statements.antt =====
-- The statements of the transactions, and what each does to one row.
use cifarm_server_alternativ.Prelude.{ℕ, Option, none, some, List, [], ◌∷◌, ℤ, ◌==◌, if◌then◌else◌}
use cifarm_server_alternativ.Entities.{
  UserEntity, UserChanges, patch, SeedGrowthInfoEntity, SeedGrowthInfoChanges, patch_crop,
  AnimalInfoEntity, AnimalInfoChanges, patch_animal, BuildingInfoEntity, InventoryEntity,
  DeliveringProductEntity,
}

pub record NewSeedGrowthInfo : Type 0 where
  pub placed_item_id : ℕ
  pub harvest_quantity_remaining : ℤ
  pub crop_id : ℕ

pub record NewBuildingInfo : Type 0 where
  pub current_upgrade : ℕ
  pub occupancy : ℤ
  pub building_id : ℕ

pub record NewPlacedItem : Type 0 where
  pub user_id : ℕ
  pub x : ℤ
  pub y : ℤ
  pub placed_item_type_id : ℕ
  pub parent_id : Option ℕ
  -- the `animalInfo` that is saved with it, by its `animalId`
  pub animal_id : Option ℕ
  -- the `buildingInfo` that is saved with it
  pub building_info : Option NewBuildingInfo

pub data Statement : Type 0 where
  update_user : ℕ → UserChanges → Statement
  update_seed_growth_info : ℕ → SeedGrowthInfoChanges → Statement
  insert_seed_growth_info : NewSeedGrowthInfo → Statement
  remove_seed_growth_info : ℕ → Statement
  update_animal_info : ℕ → AnimalInfoChanges → Statement
  update_inventory : Option ℕ → ℤ → Statement
  save_inventories : List InventoryEntity → Statement
  remove_inventory : InventoryEntity → Statement
  insert_placed_item : NewPlacedItem → Statement
  update_placed_item : (id : ℕ) (x y : ℤ) → Statement
  delete_placed_item : (id user_id : ℕ) → Statement
  save_building_info : BuildingInfoEntity → Statement
  insert_delivering_product : DeliveringProductEntity → Statement
  remove_delivering_product : DeliveringProductEntity → Statement
  insert_following : (follower_id followee_id : ℕ) → Statement
  delete_following : (follower_id followee_id : ℕ) → Statement

-- A user's row after the statements.
unfoldable pub user_after : ℕ → List Statement → UserEntity → UserEntity
user_after i [] u = u
user_after i (update_user j c ∷ rest) u = user_after i rest (if i == j then patch c u else u)
user_after i (_ ∷ rest) u = user_after i rest u

-- The row of a crop's growth after the statements, if it is still there.
unfoldable pub crop_after :
    ℕ → List Statement → Option SeedGrowthInfoEntity → Option SeedGrowthInfoEntity
crop_after i [] g = g
crop_after i (update_seed_growth_info j c ∷ rest) none = crop_after i rest none
crop_after i (update_seed_growth_info j c ∷ rest) (some g) =
    crop_after i rest (some (if i == j then patch_crop c g else g))
crop_after i (remove_seed_growth_info j ∷ rest) g = crop_after i rest (if i == j then none else g)
crop_after i (_ ∷ rest) g = crop_after i rest g

-- The row of an animal after the statements.
unfoldable pub animal_after : ℕ → List Statement → AnimalInfoEntity → AnimalInfoEntity
animal_after i [] a = a
animal_after i (update_animal_info j c ∷ rest) a =
    animal_after i rest (if i == j then patch_animal c a else a)
animal_after i (_ ∷ rest) a = animal_after i rest a
