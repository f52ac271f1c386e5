-- ===== src/Placement.antt =====
-- `MoveService`, `PlaceTileService` and `RecoverTileService` (apps/gameplay-service/src/placement).
-- The id that the database gives to a new row is not part of a response.
pub mod Tile
pub mod Open
use cifarm_server_alternativ.Prelude.{
  ℕ, Bool, not, Option, none, some, List, [], ◌∷◌, ◌++◌, ℤ, pos, ◌-ℤ◌, eqb_ℤ, length, get_elem?,
  ◌==◌, if◌then◌else◌,
}
use cifarm_server_alternativ.Result.{
  Result, ok, err, ◌>>=◌, ◌>>◌, throw_if, or_throw, deref, grpc_not_found, grpc_failed_precondition,
}
use cifarm_server_alternativ.Entities.{
  InventoryType, inventory_type_eq, PlacedItemType, placed_item_type_eq, InventoryEntity, Position,
}
use cifarm_server_alternativ.Database.{
  Database, Statement, no_relations, any_inventory, any_inventory_type, update_inventory,
  remove_inventory, save_inventories, insert_placed_item, update_placed_item, delete_placed_item,
}
use cifarm_server_alternativ.Service.{Plan, World, Handler, left_open}
use cifarm_server_alternativ.Gameplay.Inventory

-- `updatedInventories[updatedInventories.length - 1].id`
abbrev pub last_id : List InventoryEntity → Option ℕ
last_id [] = none
last_id (inventory ∷ []) = inventory.id
last_id (inventory ∷ next ∷ rest) = last_id (next ∷ rest)

module _ (db : Database) where
  -- The reading part of `move`.
  unfoldable pub move_plan : (placed_item_id user_id : ℕ) → Position → Handler db (Unit {0})
  move_plan placed_item_id user_id position s = do
    let user = db.find_user user_id s
    placed_item ←
        or_throw
          (db.find_placed_item (record { id = placed_item_id; user_id = none; type = none })
            no_relations s)
          (grpc_not_found "Placed item not found")
    user ← deref user
    throw_if (not (placed_item.user_id == user.id))
        (grpc_failed_precondition "Placed item not belong to user")
    ok (record {
      statements = ok (update_placed_item placed_item_id position.x position.y ∷ []);
      messages = [];
      response = tt;
    })

  unfoldable pub move :
      (placed_item_id user_id : ℕ) → Position → World db → Result (Unit {0}) × World db
  unfolding move_plan left_open
  move placed_item_id user_id position w =
      elim (move_plan placed_item_id user_id position w.state) [
        | err e ↦ (err e, w)
        | ok plan ↦ left_open db plan w
      ]

  -- The placed item type has the id of the inventory type. The ids in the response are left out, and
  -- the exception for a failed transaction, a `GrpcNotFoundException`, is `transaction_failed`.
  unfoldable pub place_tile : (inventory_tile_id user_id : ℕ) → Position → Handler db (Unit {0})
  place_tile inventory_tile_id user_id position s = do
    inventory ←
        or_throw
          (db.find_inventory
            (record any_inventory { id = some inventory_tile_id; user_id = some user_id }) s)
          (grpc_not_found "Tile not found in inventory")
    inventory_type ← deref inventory.inventory_type
    throw_if (not (inventory_type_eq inventory_type.type InventoryType.tile))
        (grpc_failed_precondition "Inventory item is not a tile")
    ok (record {
      statements = ok (
          (if eqb_ℤ inventory.quantity (pos 1)
            then remove_inventory inventory
            else update_inventory inventory.id (inventory.quantity -ℤ pos 1))
          ∷ insert_placed_item (record {
            user_id = user_id;
            x = position.x;
            y = position.y;
            placed_item_type_id = inventory_type.id;
            parent_id = none;
            animal_id = none;
            building_info = none;
          })
          ∷ []);
      messages = [];
      response = tt;
    })

  -- The delete tests the user, and nothing tests that it has deleted a row. It responds with the id
  -- of the last stack, where the stack is not new.
  unfoldable pub recover_tile : (placed_item_tile_id user_id : ℕ) → Handler db (Option ℕ)
  recover_tile placed_item_tile_id user_id s = do
    placed_item ←
        or_throw
          (db.find_placed_item (record { id = placed_item_tile_id; user_id = none; type = none })
            no_relations s)
          (grpc_not_found "Placed item not found")
    throw_if (not (placed_item_type_eq placed_item.type PlacedItemType.tile))
        (grpc_failed_precondition "Placed item is not a tile")
    inventory_type ← deref (
        db.find_inventory_type
          (record any_inventory_type {
            tile_id = placed_item.tile_id;
            type = some InventoryType.tile;
          })
          s)
    let existing =
        db.find_inventories
          (record any_inventory {
            user_id = some user_id;
            inventory_type_id = some inventory_type.id;
          })
          s
    let updated = Inventory.add existing user_id inventory_type (pos 1)
    ok (record {
      statements = updated >>= λ stacks.
          ok (delete_placed_item placed_item_tile_id user_id ∷ save_inventories stacks ∷ []);
      messages = [];
      response = elim updated [ err e ↦ none | ok stacks ↦ last_id stacks ];
    })
