-- ===== src/Shop/Farm.antt =====
-- `BuyAnimalService` and `ConstructBuildingService`: what is bought onto the farm.
pub mod Build
use cifarm_server_alternativ.Prelude.{
  ℕ, suc, Bool, true, false, Option, none, some, List, [], ◌∷◌, not, ℤ, pos, ◌+ℤ◌, leb_ℤ, eqb_ℤ,
  get_elem?, if◌then◌else◌,
}
use cifarm_server_alternativ.Result.{
  Result, ok, err, ◌>>=◌, ◌>>◌, throw_if, or_throw, deref, grpc_not_found, grpc_failed_precondition,
}
use cifarm_server_alternativ.Entities.{
  PlacedItemType, placed_item_type_eq, AnimalType, animal_type_eq, UpgradeEntity,
}
use cifarm_server_alternativ.Database.{
  Database, with_building, Statement, update_user, insert_placed_item, save_building_info,
}
use cifarm_server_alternativ.Service.{Plan, Handler}
use cifarm_server_alternativ.Gameplay.Wallet

-- `building.type != animal.type`, where the building may have none
abbrev houses : Option AnimalType → AnimalType → Bool
houses none type = false
houses (some other) type = animal_type_eq other type

module _ (db : Database) where
  unfoldable pub buy_animal : ℕ → ℕ → ℕ → ℤ → ℤ → Handler db (Unit {0})
  buy_animal user_id animal_id placed_item_building_id x y s = do
    animal ← or_throw (db.find_animal animal_id s) (grpc_not_found "Animal not found")
    throw_if (not animal.available_in_shop)
        (grpc_failed_precondition "Animal not available in shop")
    placed_item_building ←
        or_throw
          (db.find_placed_item
            (record { id = placed_item_building_id; user_id = none; type = none }) with_building s)
          (grpc_not_found "Building not found")
    throw_if (not (placed_item_type_eq placed_item_building.type PlacedItemType.building))
        (grpc_failed_precondition "Placed item is not a building")
    building_info ← deref placed_item_building.building_info
    throw_if (not (houses building_info.building.type animal.type))
        (grpc_failed_precondition "Building is not for this animal")
    placed_item_type_id ←
        or_throw (db.find_placed_item_type PlacedItemType.animal animal_id s)
          (grpc_failed_precondition "Animal type not found")
    user ← or_throw (db.find_user user_id s) (grpc_not_found "User not found")
    let total_cost = animal.price
    Wallet.check_sufficient_golds user.golds total_cost
    upgrade ← deref (get_elem? building_info.building.upgrades building_info.current_upgrade)
    throw_if (leb_ℤ upgrade.capacity building_info.occupancy)
        (grpc_failed_precondition "Building is full")
    golds_changed ← Wallet.subtract_golds user total_cost
    ok (record {
      statements = ok (
          update_user user.id golds_changed
          ∷ insert_placed_item (record {
            user_id = user_id;
            x = x;
            y = y;
            placed_item_type_id = placed_item_type_id;
            parent_id = some placed_item_building.id;
            animal_id = some animal_id;
            building_info = none;
          })
          ∷ save_building_info
              (record building_info { occupancy = building_info.occupancy +ℤ pos 1 })
          ∷ []);
      messages = [];
      response = tt;
    })

  unfoldable pub construct_building : ℕ → ℕ → ℤ → ℤ → Handler db (Unit {0})
  construct_building user_id building_id x y s = do
    building ← or_throw (db.find_building building_id s) (grpc_not_found "Building not found")
    throw_if (not building.available_in_shop)
        (grpc_failed_precondition "Building not available in shop")
    let total_cost = building.price
    user ← deref (db.find_user user_id s)
    Wallet.check_sufficient_golds user.golds total_cost
    placed_item_type_id ← deref (db.find_placed_item_type_by_id building_id s)
    golds_changed ← Wallet.subtract_golds user total_cost
    ok (record {
      statements = ok (
          update_user user.id golds_changed
          ∷ insert_placed_item (record {
            user_id = user_id;
            x = x;
            y = y;
            placed_item_type_id = placed_item_type_id;
            parent_id = none;
            animal_id = none;
            building_info =
                some (record { current_upgrade = 1; occupancy = pos 0; building_id = building.id });
          })
          ∷ []);
      messages = [];
      response = tt;
    })
