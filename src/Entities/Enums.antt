-- ===== src/Entities/Enums.antt =====
-- The enumerations of src/databases/postgresql/gameplay/enums, with their tests for equality.
use cifarm_server_alternativ.Prelude.{Bool, true, false}

pub data CropCurrentState : Type 0 where
  normal need_water is_weedy is_infested fully_matured : CropCurrentState

pub data AnimalCurrentState : Type 0 where
  normal hungry sick yield : AnimalCurrentState

pub data InventoryType : Type 0 where
  seed tile animal product supply : InventoryType

pub data PlacedItemType : Type 0 where
  tile building animal : PlacedItemType

pub data AnimalType : Type 0 where
  poultry livestock : AnimalType

pub data AppearanceChance : Type 0 where
  common uncommon rare very_rare : AppearanceChance

pub data SpinPrizeType : Type 0 where
  gold seed supply token : SpinPrizeType

abbrev pub crop_state_eq : CropCurrentState → CropCurrentState → Bool
crop_state_eq CropCurrentState.normal CropCurrentState.normal = true
crop_state_eq CropCurrentState.need_water CropCurrentState.need_water = true
crop_state_eq CropCurrentState.is_weedy CropCurrentState.is_weedy = true
crop_state_eq CropCurrentState.is_infested CropCurrentState.is_infested = true
crop_state_eq CropCurrentState.fully_matured CropCurrentState.fully_matured = true
crop_state_eq _ _ = false

abbrev pub animal_state_eq : AnimalCurrentState → AnimalCurrentState → Bool
animal_state_eq AnimalCurrentState.normal AnimalCurrentState.normal = true
animal_state_eq AnimalCurrentState.hungry AnimalCurrentState.hungry = true
animal_state_eq AnimalCurrentState.sick AnimalCurrentState.sick = true
animal_state_eq AnimalCurrentState.yield AnimalCurrentState.yield = true
animal_state_eq _ _ = false

abbrev pub placed_item_type_eq : PlacedItemType → PlacedItemType → Bool
placed_item_type_eq PlacedItemType.tile PlacedItemType.tile = true
placed_item_type_eq PlacedItemType.building PlacedItemType.building = true
placed_item_type_eq PlacedItemType.animal PlacedItemType.animal = true
placed_item_type_eq _ _ = false

abbrev pub inventory_type_eq : InventoryType → InventoryType → Bool
inventory_type_eq InventoryType.seed InventoryType.seed = true
inventory_type_eq InventoryType.tile InventoryType.tile = true
inventory_type_eq InventoryType.animal InventoryType.animal = true
inventory_type_eq InventoryType.product InventoryType.product = true
inventory_type_eq InventoryType.supply InventoryType.supply = true
inventory_type_eq _ _ = false

abbrev pub animal_type_eq : AnimalType → AnimalType → Bool
animal_type_eq AnimalType.poultry AnimalType.poultry = true
animal_type_eq AnimalType.livestock AnimalType.livestock = true
animal_type_eq _ _ = false

abbrev pub appearance_chance_eq : AppearanceChance → AppearanceChance → Bool
appearance_chance_eq AppearanceChance.common AppearanceChance.common = true
appearance_chance_eq AppearanceChance.uncommon AppearanceChance.uncommon = true
appearance_chance_eq AppearanceChance.rare AppearanceChance.rare = true
appearance_chance_eq AppearanceChance.very_rare AppearanceChance.very_rare = true
appearance_chance_eq _ _ = false
