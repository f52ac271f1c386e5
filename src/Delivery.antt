-- ===== src/Delivery.antt =====
-- The services of apps/gameplay-service/src/delivery: products leave the inventory to be delivered,
-- and come back.
pub mod Sign
pub mod Return
use cifarm_server_alternativ.Prelude.{
  ℕ, Option, none, some, [], ◌∷◌, not, ℤ, pos, ◌-ℤ◌, ltb_ℤ, eqb_ℤ, if◌then◌else◌,
}
use cifarm_server_alternativ.Result.{
  Result, ok, err, ◌>>=◌, ◌>>◌, throw_if, or_throw, deref, grpc_not_found, grpc_failed_precondition,
}
use cifarm_server_alternativ.Entities.{InventoryType, InventoryEntity}
use cifarm_server_alternativ.Database.{
  Database, any_inventory, any_inventory_type, Statement, save_inventories, remove_inventory,
  insert_delivering_product, remove_delivering_product,
}
use cifarm_server_alternativ.Service.{Plan, Handler}
use cifarm_server_alternativ.Gameplay.Inventory

-- `if (inventory.quantity === 0) remove else save`
pub delivered_from : InventoryEntity → Statement
delivered_from inventory =
    if eqb_ℤ inventory.quantity (pos 0)
    then remove_inventory inventory
    else save_inventories (inventory ∷ [])

module _ (db : Database) where
  unfoldable pub deliver_product : ℕ → ℕ → ℤ → ℤ → Handler db (Unit {0})
  unfolding delivered_from
  deliver_product user_id inventory_id quantity index s = do
    inventory ←
        or_throw
          (db.find_inventory
            (record any_inventory { id = some inventory_id; user_id = some user_id }) s)
          (grpc_not_found "Inventory not found")
    throw_if (ltb_ℤ inventory.quantity quantity)
        (grpc_failed_precondition "Not enough quantity to deliver")
    inventory_type ← deref inventory.inventory_type
    throw_if (not inventory_type.deliverable)
        (grpc_failed_precondition "Inventory type is not deliverable")
    ok (record {
      statements = ok (
          delivered_from (record inventory { quantity = inventory.quantity -ℤ quantity })
          ∷ insert_delivering_product (record {
            id = none;
            user_id = user_id;
            quantity = quantity;
            premium = inventory.premium;
            index = index;
            product_id = inventory_type.product_id;
          })
          ∷ []);
      messages = [];
      response = tt;
    })

  unfoldable pub retain_product : ℕ → ℕ → Handler db (Unit {0})
  retain_product user_id delivering_product_id s = do
    delivering_product ←
        or_throw (db.find_delivering_product delivering_product_id user_id s)
          (grpc_not_found "Delivering product not found")
    -- a missing type is read by `InventoryService.add`
    inventory_type ← deref (
        db.find_inventory_type
          (record any_inventory_type {
            type = some InventoryType.product;
            product_id = delivering_product.product_id;
          })
          s)
    updated_inventories ←
        Inventory.add
          (db.find_inventories
            (record any_inventory {
              user_id = some user_id;
              inventory_type_id = some inventory_type.id;
            })
            s)
          user_id inventory_type delivering_product.quantity
    ok (record {
      statements = ok (
          remove_delivering_product delivering_product ∷ save_inventories updated_inventories ∷ []);
      messages = [];
      response = tt;
    })
