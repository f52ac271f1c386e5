-- ===== src/Tests/Memory.antt =====
-- A small database in memory: lists of rows, found by their ids. Rows that a transaction inserts,
-- and statements on buildings and deliveries, are kept in `log` and are not found by queries.
pub mod Rows
pub mod Run
pub mod Laws
use cifarm_server_alternativ.Prelude.{
  ℕ, suc, ◌≡◌, refl, Bool, true, false, ◌&&◌, not, Option, none, some, List, [], ◌∷◌, map, length,
  ◌==◌, if◌then◌else◌, String,
}
use cifarm_server_alternativ.Result.{Result, ok}
use cifarm_server_alternativ.Entities.{
  UserEntity, UserChanges, patch, PlacedItemEntity, PlacedItemType, placed_item_type_eq,
  SeedGrowthInfoEntity, patch_crop, AnimalInfoEntity, patch_animal, BuildingInfoEntity,
  InventoryEntity, InventoryTypeEntity, InventoryType, inventory_type_eq, CropEntity, AnimalEntity,
  SupplyEntity, TileEntity, BuildingEntity, DeliveringProductEntity, DailyRewardEntity,
  SpinSlotEntity, SpinInfo, Activities, CropRandomness, AnimalRandomness,
}
use cifarm_server_alternativ.Database.{
  Database, PlacedItemWhere, Relations, InventoryWhere, InventoryTypeWhere, Statement, update_user,
  update_seed_growth_info, remove_seed_growth_info, update_animal_info,
}

-- A placed item with the ids of its crop and its animal, and its building.
pub record PlacedRow : Type 0 where
  pub id : ℕ
  pub user_id : ℕ
  pub type : PlacedItemType
  pub tile_id : Option ℕ
  pub crop : Option ℕ
  pub animal : Option ℕ
  pub building_info : Option BuildingInfoEntity

-- An inventory type with the supply, and the crop or animal of the product, that it refers to.
pub record TypeRow : Type 0 where
  pub type : InventoryTypeEntity
  pub supply_id : Option ℕ
  pub product_crop_id : Option ℕ
  pub tile_id : Option ℕ
  pub product_animal_id : Option ℕ

pub record Tables : Type 0 where
  pub users : List UserEntity
  pub placed : List PlacedRow
  pub crops : List SeedGrowthInfoEntity
  pub animals : List AnimalInfoEntity
  pub inventories : List InventoryEntity
  pub types : List TypeRow
  pub crop_kinds : List CropEntity
  pub animal_kinds : List AnimalEntity
  pub supplies : List SupplyEntity
  pub tiles : List TileEntity
  pub buildings : List BuildingEntity
  pub deliveries : List DeliveringProductEntity
  pub daily_rewards : List DailyRewardEntity
  pub spin_slots : List SpinSlotEntity
  pub spin_info : SpinInfo
  pub activities : Activities
  pub crop_randomness : CropRandomness
  pub animal_randomness : AnimalRandomness
  pub log : List Statement

module _ {A : Type 0} where
  -- The first row that meets a test, and all that do.
  abbrev pub first : (A → Bool) → List A → Option A
  first p [] = none
  first p (a ∷ rest) = if p a then some a else first p rest

  abbrev pub every : (A → Bool) → List A → List A
  every p [] = []
  every p (a ∷ rest) = if p a then a ∷ every p rest else every p rest

-- A criterion, where there is one.
abbrev pub meets : Option ℕ → ℕ → Bool
meets none i = true
meets (some j) i = i == j

abbrev pub meets_type : Option PlacedItemType → PlacedItemType → Bool
meets_type none t = true
meets_type (some u) t = placed_item_type_eq t u

abbrev pub meets_option : Option ℕ → Option ℕ → Bool
meets_option none i = true
meets_option (some j) none = false
meets_option (some j) (some i) = i == j

abbrev pub meets_kind : Option InventoryType → InventoryType → Bool
meets_kind none t = true
meets_kind (some u) t = inventory_type_eq t u

abbrev pub load : {A : Type 0} → (ℕ → Option A) → Bool → Option ℕ → Option A
load find false i = none
load find true none = none
load find true (some i) = find i

abbrev pub load_building : Bool → Option BuildingInfoEntity → Option BuildingInfoEntity
load_building false b = none
load_building true b = b

abbrev pub user_row : ℕ → Tables → Option UserEntity
user_row i t = first (λ u. u.id == i) t.users

abbrev pub crop_row : ℕ → Tables → Option SeedGrowthInfoEntity
crop_row i t = first (λ g. g.id == i) t.crops

abbrev pub animal_row : ℕ → Tables → Option AnimalInfoEntity
animal_row i t = first (λ a. a.id == i) t.animals

abbrev pub placed_entity : Relations → Tables → PlacedRow → PlacedItemEntity
placed_entity r t p = record {
  id = p.id;
  user_id = p.user_id;
  type = p.type;
  tile_id = p.tile_id;
  seed_growth_info = load (λ i. crop_row i t) r.seed_growth_info p.crop;
  animal_info = load (λ i. animal_row i t) r.animal_info p.animal;
  building_info = load_building r.building_info p.building_info;
}

abbrev pub is_wanted : PlacedItemWhere → PlacedRow → Bool
is_wanted w p = p.id == w.id && (meets w.user_id p.user_id && meets_type w.type p.type)

abbrev pub loaded : Relations → Tables → Option PlacedRow → Option PlacedItemEntity
loaded r t none = none
loaded r t (some p) = some (placed_entity r t p)

abbrev pub supply_of : Option TypeRow → Option ℕ
supply_of none = none
supply_of (some row) = row.supply_id

abbrev pub kind_meets : Option InventoryType → Option TypeRow → Bool
kind_meets none row = true
kind_meets (some kind) none = false
kind_meets (some kind) (some row) = inventory_type_eq row.type.type kind

abbrev pub is_wanted_inventory : InventoryWhere → Tables → InventoryEntity → Bool
is_wanted_inventory w t i =
    let row = first (λ (row : TypeRow). row.type.id == i.inventory_type_id) t.types in
    meets_option w.id i.id
    && (meets w.user_id i.user_id
        && (meets w.inventory_type_id i.inventory_type_id
            && (kind_meets w.type row && meets_option w.supply_id (supply_of row))))

abbrev pub is_wanted_type : InventoryTypeWhere → TypeRow → Bool
is_wanted_type w row =
    meets_kind w.type row.type.type
    && (meets_option w.crop_id row.type.crop_id
        && (meets_option w.supply_id row.supply_id
            && (meets_option w.product_id row.type.product_id
                && (meets_option w.product_crop_id row.product_crop_id
                    && (meets_option w.product_animal_id row.product_animal_id
                        && meets_option w.tile_id row.tile_id)))))

abbrev pub type_of : Option TypeRow → Option InventoryTypeEntity
type_of none = none
type_of (some row) = some row.type

abbrev pub product_of : Option TypeRow → Option ℕ
product_of none = none
product_of (some row) = row.type.product_id

-- A missing id in a `where` is no criterion.
abbrev pub crop_kind : Option ℕ → List CropEntity → Option CropEntity
crop_kind i kinds = first (λ (c : CropEntity). meets i c.id) kinds

-- One statement on the tables.
unfoldable pub run : Statement → Tables → Tables
run (update_user i c) t = record t {
  users = map (λ (u : UserEntity). if u.id == i then patch c u else u) t.users;
}
run (update_seed_growth_info i c) t = record t {
  crops = map (λ (g : SeedGrowthInfoEntity). if g.id == i then patch_crop c g else g) t.crops;
}
run (remove_seed_growth_info i) t = record t {
  crops = every (λ (g : SeedGrowthInfoEntity). not (g.id == i)) t.crops;
}
run (update_animal_info i c) t = record t {
  animals = map (λ (a : AnimalInfoEntity). if a.id == i then patch_animal c a else a) t.animals;
}
run statement t = record t { log = statement ∷ t.log }

unfoldable pub run_all : List Statement → Tables → Tables
run_all [] t = t
run_all (statement ∷ rest) t = run_all rest (run statement t)

-- Tiles in the inventory are not counted, and types of placed items have the ids of the catalogue.
abbrev pub memory : Database
memory = record {
  State = Tables;
  find_placed_item = λ w r t. loaded r t (first (is_wanted w) t.placed);
  find_user = user_row;
  find_activities = λ t. some t.activities;
  find_crop_randomness = λ t. some t.crop_randomness;
  find_animal_randomness = λ t. some t.animal_randomness;
  find_inventory = λ w t. first (is_wanted_inventory w t) t.inventories;
  find_inventories = λ w t. every (is_wanted_inventory w t) t.inventories;
  find_inventory_type = λ w t. type_of (first (is_wanted_type w) t.types);
  find_product_of_crop = λ i t.
      product_of (first (λ (row : TypeRow). meets_option (some i) row.product_crop_id) t.types);
  find_crop = λ i t. crop_kind i t.crop_kinds;
  find_animal = λ i t. first (λ (a : AnimalEntity). a.id == i) t.animal_kinds;
  find_supply = λ i t. first (λ (a : SupplyEntity). a.id == i) t.supplies;
  find_tile = λ i t. first (λ (a : TileEntity). a.id == i) t.tiles;
  find_building = λ i t. first (λ (a : BuildingEntity). a.id == i) t.buildings;
  find_placed_item_type = λ type i t. some i;
  find_placed_item_type_by_id = λ i t. some i;
  count_inventory_tiles = λ user_id tile_id t. 0;
  count_placed_tiles = λ user_id tile_id t. length (
      every
        (λ (p : PlacedRow). p.user_id == user_id && placed_item_type_eq p.type PlacedItemType.tile)
        t.placed);
  find_daily_rewards = λ t. t.daily_rewards;
  find_spin_slots = λ t. t.spin_slots;
  find_spin_info = λ t. some t.spin_info;
  find_delivering_product = λ i user_id t.
      first (λ (d : DeliveringProductEntity). meets_option (some i) d.id && d.user_id == user_id)
        t.deliveries;
  commit = λ statements t. ok (run_all statements t);
  crop_row = crop_row;
  animal_row = animal_row;
}
