-- ===== src/Shop/Stock.antt =====
-- `BuySeedsService` and `BuySuppliesService`: what is bought into the inventory.
pub mod Purchase
use cifarm_server_alternativ.Prelude.{ℕ, Option, none, some, [], ◌∷◌, not, ℤ, ◌*ℤ◌}
use cifarm_server_alternativ.Result.{
  Result, ok, err, ◌>>=◌, ◌>>◌, throw_if, or_throw, deref, grpc_not_found, grpc_failed_precondition,
}
use cifarm_server_alternativ.Entities.{InventoryType}
use cifarm_server_alternativ.Database.{
  Database, any_inventory, any_inventory_type, Statement, update_user, save_inventories,
}
use cifarm_server_alternativ.Service.{Plan, Handler}
use cifarm_server_alternativ.Gameplay.Wallet
use cifarm_server_alternativ.Gameplay.Inventory

module _ (db : Database) where
  unfoldable pub buy_seeds : ℕ → ℕ → ℤ → Handler db (Unit {0})
  buy_seeds user_id crop_id quantity s = do
    crop ← or_throw (db.find_crop (some crop_id) s) (grpc_not_found "Crop not found")
    throw_if (not crop.available_in_shop) (grpc_failed_precondition "Crop not available in shop")
    let total_cost = crop.price *ℤ quantity
    user ← deref (db.find_user user_id s)
    Wallet.check_sufficient_golds user.golds total_cost
    inventory_type ← deref (
        db.find_inventory_type
          (record any_inventory_type { crop_id = some crop_id; type = some InventoryType.seed }) s)
    updated_inventories ←
        Inventory.add
          (db.find_inventories
            (record any_inventory {
              user_id = some user_id;
              inventory_type_id = some inventory_type.id;
            })
            s)
          user_id inventory_type quantity
    let statements = (do
      golds_changed ← Wallet.subtract_golds user total_cost
      ok (update_user user.id golds_changed ∷ save_inventories updated_inventories ∷ []))
    ok (record { statements = statements; messages = []; response = tt })

  unfoldable pub buy_supplies : ℕ → ℕ → ℤ → Handler db (Unit {0})
  buy_supplies user_id supply_id quantity s = do
    supply ← or_throw (db.find_supply supply_id s) (grpc_not_found "Supply not found")
    throw_if (not supply.available_in_shop)
        (grpc_failed_precondition "Supply not available in shop")
    let total_cost = supply.price *ℤ quantity
    user ← or_throw (db.find_user user_id s) (grpc_not_found "User not found")
    Wallet.check_sufficient_golds user.golds total_cost
    -- a missing type is read by `InventoryService.add`
    inventory_type ←
        deref (db.find_inventory_type (record any_inventory_type { supply_id = some supply_id }) s)
    updated_inventories ←
        Inventory.add
          (db.find_inventories
            (record any_inventory { user_id = some user_id; supply_id = some supply_id }) s)
          user_id inventory_type quantity
    let statements = (do
      golds_changed ← Wallet.subtract_golds user total_cost
      ok (update_user user.id golds_changed ∷ save_inventories updated_inventories ∷ []))
    ok (record { statements = statements; messages = []; response = tt })
