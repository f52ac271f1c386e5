-- ===== src/Tests/Play.antt =====
-- The services of src/gameplay on concrete users and stacks.
use cifarm_server_alternativ.Prelude.{◌≡◌, some, none, List, [], ◌∷◌, ℤ, pos, arith}
use cifarm_server_alternativ.Result.{ok}
use cifarm_server_alternativ.Entities.{
  InventoryEntity, InventoryTypeEntity, InventoryType, ActivityInfo,
}
use cifarm_server_alternativ.Gameplay.Inventory
use cifarm_server_alternativ.Gameplay.Inventory.Add.{IsAdded, add-IsAdded}
use cifarm_server_alternativ.Tests.Sample.{stock, inventory_type}

abbrev flat : InventoryTypeEntity
flat = record (inventory_type 2 InventoryType.product none (some 1)) { max_stack = pos 0 }

abbrev info : ℤ → ActivityInfo
info gain = record { experiences_gain = gain; energy_consume = pos 1 }

add-IsAdded_example :
    (after : List InventoryEntity) × (Inventory.add
        (stock 1 (pos 5) ∷ [])
        1
        (inventory_type 2 InventoryType.product none (some 1))
        (pos 30)
      ≡ ok after)
    × IsAdded
        (stock 1 (pos 5) ∷ [])
        1
        (inventory_type 2 InventoryType.product none (some 1))
        (pos 30)
        after
add-IsAdded_example =
    add-IsAdded (stock 1 (pos 5) ∷ []) 1 (inventory_type 2 InventoryType.product none (some 1))
      (pos 30) (omega arith) (omega arith)
