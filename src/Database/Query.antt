-- ===== src/Database/Query.antt =====
-- The `where` and `relations` arguments of the queries. A missing criterion is not tested.
use cifarm_server_alternativ.Prelude.{ℕ, Bool, true, false, Option, none, some, ◌≡◌}
use cifarm_server_alternativ.Entities.{PlacedItemType, InventoryType}

pub record PlacedItemWhere : Type 0 where
  pub id : ℕ
  pub user_id : Option ℕ
  pub type : Option PlacedItemType

pub record Relations : Type 0 where
  pub seed_growth_info : Bool
  pub animal_info : Bool
  pub building_info : Bool

abbrev pub no_relations : Relations
no_relations = record { seed_growth_info = false; animal_info = false; building_info = false }

abbrev pub with_crop : Relations
with_crop = record { seed_growth_info = true; animal_info = false; building_info = false }

abbrev pub with_animal : Relations
with_animal = record { seed_growth_info = false; animal_info = true; building_info = false }

abbrev pub with_building : Relations
with_building = record { seed_growth_info = false; animal_info = false; building_info = true }

pub record InventoryWhere : Type 0 where
  pub id : Option ℕ
  pub user_id : Option ℕ
  pub inventory_type_id : Option ℕ
  pub type : Option InventoryType
  pub supply_id : Option ℕ

abbrev pub any_inventory : InventoryWhere
any_inventory = record {
  id = none;
  user_id = none;
  inventory_type_id = none;
  type = none;
  supply_id = none;
}

-- `product_crop_id` and `product_animal_id` are criteria on the product of the type.
pub record InventoryTypeWhere : Type 0 where
  pub type : Option InventoryType
  pub crop_id : Option ℕ
  pub supply_id : Option ℕ
  pub product_id : Option ℕ
  pub tile_id : Option ℕ
  pub product_crop_id : Option ℕ
  pub product_animal_id : Option ℕ

abbrev pub any_inventory_type : InventoryTypeWhere
any_inventory_type = record {
  type = none;
  crop_id = none;
  supply_id = none;
  product_id = none;
  tile_id = none;
  product_crop_id = none;
  product_animal_id = none;
}

abbrev pub Meets {ℓ} : {A : Type ℓ} → Option A → A → Type ℓ
Meets none a = Unit
Meets (some b) a = a ≡ b
