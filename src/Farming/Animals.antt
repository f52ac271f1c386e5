-- ===== src/Farming/Animals.antt =====
-- `FeedAnimalService`, `CureAnimalService` and `CollectAnimalProductService`.
pub mod Tending
use cifarm_server_alternativ.Prelude.{ℕ, none, some, [], ◌∷◌, not, pos, ◌-ℤ◌}
use cifarm_server_alternativ.Result.{
  ok, ◌>>=◌, ◌>>◌, throw_if, or_throw, deref, is_some, grpc_not_found, grpc_failed_precondition,
}
use cifarm_server_alternativ.Entities.{
  AnimalCurrentState, animal_state_eq, InventoryType, inventory_type_eq, no_animal_changes, spread,
}
use cifarm_server_alternativ.Database.{
  Database, with_animal, any_inventory, any_inventory_type, update_user, update_animal_info,
  update_inventory, save_inventories,
}
use cifarm_server_alternativ.Service.{Handler}
use cifarm_server_alternativ.Gameplay.Activity.{activity_changes}
use cifarm_server_alternativ.Gameplay.Inventory
use cifarm_server_alternativ.Gameplay.Energy
use cifarm_server_alternativ.Gameplay.Level

module _ (db : Database) where
  -- `animal_feed` is `SupplyId.AnimalFeed`.
  unfoldable pub feed_animal : ℕ → ℕ → ℕ → Handler db (Unit {0})
  feed_animal animal_feed user_id placed_item_animal_id s = do
    placed_item_animal ←
        or_throw
          (db.find_placed_item
            (record { id = placed_item_animal_id; user_id = some user_id; type = none }) with_animal
            s)
          (grpc_not_found "Animal not found")
    animal_info ← or_throw placed_item_animal.animal_info (grpc_not_found "Animal not found")
    throw_if (not (animal_state_eq animal_info.current_state AnimalCurrentState.hungry))
        (grpc_failed_precondition "Animal is not hungry")
    value ← deref (db.find_activities s)
    user ← deref (db.find_user user_id s)
    changes ← activity_changes user value.feed_animal
    inventory ←
        or_throw
          (db.find_inventory
            (record any_inventory {
              user_id = some user.id;
              type = some InventoryType.supply;
              supply_id = some animal_feed;
            })
            s)
          (grpc_not_found "Inventory not found")
    inventory_type ← deref inventory.inventory_type
    throw_if (not (inventory_type_eq inventory_type.type InventoryType.supply))
        (grpc_failed_precondition "Inventory type is not supply")
    ok (record {
      statements = ok (
          update_inventory inventory.id (inventory.quantity -ℤ pos 1)
          ∷ update_user user.id changes
          ∷ update_animal_info animal_info.id (record no_animal_changes {
            current_state = some AnimalCurrentState.normal;
            current_hungry_time = some (pos 0);
          })
          ∷ []);
      messages = [];
      response = tt;
    })

  -- The experiences are added inside the `try`.
  unfoldable pub cure_animal : ℕ → ℕ → Handler db (Unit {0})
  cure_animal user_id placed_item_animal_id s = do
    placed_item_animal ←
        or_throw
          (db.find_placed_item
            (record { id = placed_item_animal_id; user_id = some user_id; type = none }) with_animal
            s)
          (grpc_not_found "Animal not found")
    animal_info ← or_throw placed_item_animal.animal_info (grpc_not_found "Animal not found")
    throw_if (not (animal_state_eq animal_info.current_state AnimalCurrentState.sick))
        (grpc_failed_precondition "Animal is not sick")
    value ← deref (db.find_activities s)
    user ← deref (db.find_user user_id s)
    Energy.check_sufficient user.energy value.cure_animal.energy_consume
    energy_changes ← Energy.substract user value.cure_animal.energy_consume
    let statements = (do
      experiences_changes ← Level.add_experiences user value.cure_animal.experiences_gain
      ok (
          update_animal_info animal_info.id
            (record no_animal_changes { current_state = some AnimalCurrentState.normal })
          ∷ update_user user.id (spread energy_changes experiences_changes)
          ∷ []))
    ok (record { statements = statements; messages = []; response = tt })

  -- The guard of the source is `!placedItemAnimal || placedItemAnimal.animalInfo`, with no second
  -- `!`.
  unfoldable pub collect_animal_product : ℕ → ℕ → Handler db (Unit {0})
  collect_animal_product user_id placed_item_animal_id s = do
    placed_item_animal ←
        or_throw
          (db.find_placed_item
            (record { id = placed_item_animal_id; user_id = some user_id; type = none }) with_animal
            s)
          (grpc_not_found "Animal not found")
    throw_if (is_some placed_item_animal.animal_info) (grpc_not_found "Animal not found")
    animal_info ← deref placed_item_animal.animal_info
    throw_if (not (animal_state_eq animal_info.current_state AnimalCurrentState.yield))
        (grpc_failed_precondition "Animal is not ready to collect product")
    inventory_type ← deref (
        db.find_inventory_type
          (record any_inventory_type {
            type = some InventoryType.product;
            product_animal_id = some animal_info.animal.id;
          })
          s)
    updated_inventories ←
        Inventory.add
          (db.find_inventories (record any_inventory { inventory_type_id = some inventory_type.id })
            s)
          user_id inventory_type animal_info.harvest_quantity_remaining
    ok (record {
      statements = ok (
          save_inventories updated_inventories
          ∷ update_animal_info animal_info.id (record no_animal_changes {
            current_state = some AnimalCurrentState.normal;
            harvest_quantity_remaining = some (pos 0);
          })
          ∷ []);
      messages = [];
      response = tt;
    })
