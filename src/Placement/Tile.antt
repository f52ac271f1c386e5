-- ===== src/Placement/Tile.antt =====
-- What becomes of the tiles of a user.
use cifarm_server_alternativ.Prelude.{
  ℕ, ◌≡◌, refl, true, false, some, none, List, [], ◌∷◌, ◌++◌, pos, ◌+ℤ◌, ◌-ℤ◌, ◌≤ℤ◌, eqb_ℤ, arith,
  Option,
}
use cifarm_server_alternativ.Result.{ok}
use cifarm_server_alternativ.Entities.{
  InventoryEntity, InventoryTypeEntity, InventoryType, inventory_type_eq, PlacedItemType,
  PlacedItemEntity, Position,
}
use cifarm_server_alternativ.Database.{
  Database, Statement, any_inventory, any_inventory_type, no_relations, save_inventories,
  update_inventory, insert_placed_item, delete_placed_item,
}
use cifarm_server_alternativ.Service.{Plan, World, perform, finish}
use cifarm_server_alternativ.Gameplay.Inventory.Fill.{total}
use cifarm_server_alternativ.Gameplay.Inventory.Add.{add-IsAdded}
use cifarm_server_alternativ.Gameplay.Inventory.Back.{add_back}
use cifarm_server_alternativ.Placement.{last_id, place_tile, recover_tile}

module _ (db : Database) (placed_item_tile_id user_id : ℕ) where
  -- Where a tile is found, whoever owns it, its type has stacks of at least 1 piece and the
  -- database accepts every transaction, `recover_tile` returns and commits a deletion among the
  -- placed items of the user, and stacks with one piece more than the user had.
  pub recover_tile-adds :
      (w : World db) (item : PlacedItemEntity) (type : InventoryTypeEntity)
      → db.find_placed_item
          (record { id = placed_item_tile_id; user_id = none; type = none })
          no_relations
          w.state
        ≡ some item
      → item.type ≡ PlacedItemType.tile
      → db.find_inventory_type
          (record any_inventory_type { tile_id = item.tile_id; type = some InventoryType.tile })
          w.state
        ≡ some type
      → pos 1 ≤ℤ type.max_stack
      → ((statements : List Statement) → (s' : db.State) × (db.commit statements w.state ≡ ok s'))
      → (w' : World db) × (response : Option ℕ) × (stacks : List InventoryEntity) × (perform db
            (recover_tile db placed_item_tile_id user_id)
            w
          ≡ (ok response, w'))
        × (db.commit
              (delete_placed_item placed_item_tile_id user_id ∷ save_inventories stacks ∷ [])
              w.state
            ≡ ok w'.state)
        × (total stacks
            ≡ total (
                db.find_inventories
                  (record any_inventory {
                    user_id = some user_id;
                    inventory_type_id = some type.id;
                  })
                  w.state)
              +ℤ pos 1)
  unfolding perform finish recover_tile
  recover_tile-adds w item type found is_tile type_found room accepts =
      let existing =
        db.find_inventories
          (record any_inventory { user_id = some user_id; inventory_type_id = some type.id })
          w.state in
      let (stacks, added, is_added) =
        add-IsAdded existing user_id type (pos 1) room (omega arith) in
      let (s', committed) =
        accepts (delete_placed_item placed_item_tile_id user_id ∷ save_inventories stacks ∷ []) in
      (
        record { state = s'; sent = w.sent ++ [] },
        last_id stacks,
        stacks,
        ground (arith, found, is_tile, type_found, added, committed),
        committed,
        is_added.conserved,
      )

module _ (db : Database) (inventory_tile_id placed_item_tile_id user_id : ℕ)
    (position : Position) where
  -- A tile that is placed from a stack of two or more, within the limit of a stack, and recovered
  -- by the same user gives the stack back as it was: where the stack with one piece less is the
  -- only one of its type, `recover_tile` plans to delete the placed tile and save the stack.
  pub recover-place :
      (s s' : db.State) (stack : InventoryEntity) (type : InventoryTypeEntity)
      (item : PlacedItemEntity)
      → db.find_inventory
          (record any_inventory { id = some inventory_tile_id; user_id = some user_id })
          s
        ≡ some stack
      → stack.inventory_type ≡ some type
      → inventory_type_eq type.type InventoryType.tile ≡ true
      → pos 2 ≤ℤ stack.quantity
      → stack.quantity ≤ℤ type.max_stack
      → db.find_placed_item
          (record { id = placed_item_tile_id; user_id = none; type = none })
          no_relations
          s'
        ≡ some item
      → item.type ≡ PlacedItemType.tile
      → db.find_inventory_type
          (record any_inventory_type { tile_id = item.tile_id; type = some InventoryType.tile })
          s'
        ≡ some type
      → db.find_inventories
          (record any_inventory { user_id = some user_id; inventory_type_id = some type.id })
          s'
        ≡ record stack { quantity = stack.quantity -ℤ pos 1 } ∷ []
      → (placed : Plan (Unit {0})) × (recovered : Plan (Option ℕ)) × (new : Statement) × (place_tile
            db inventory_tile_id user_id position s
          ≡ ok placed)
        × (placed.statements ≡ ok (update_inventory stack.id (stack.quantity -ℤ pos 1) ∷ new ∷ []))
        × (recover_tile db placed_item_tile_id user_id s' ≡ ok recovered)
        × (recovered.statements
            ≡ ok (
                delete_placed_item placed_item_tile_id user_id
                ∷ save_inventories (stack ∷ [])
                ∷ []))
  unfolding place_tile recover_tile
  recover-place s s' stack type item there typed is_tile several fits found placed type_found left =
      let back = add_back stack user_id type fits in
      let one_left : eqb_ℤ stack.quantity (pos 1) ≡ false = ground arith in
      let new : Statement = insert_placed_item (record {
        user_id = user_id;
        x = position.x;
        y = position.y;
        placed_item_type_id = type.id;
        parent_id = none;
        animal_id = none;
        building_info = none;
      }) in
      (
        record {
          statements = ok (update_inventory stack.id (stack.quantity -ℤ pos 1) ∷ new ∷ []);
          messages = [];
          response = tt;
        },
        record {
          statements =
              ok (
                delete_placed_item placed_item_tile_id user_id
                ∷ save_inventories (stack ∷ [])
                ∷ []);
          messages = [];
          response = stack.id;
        },
        new,
        ground (arith, there, typed, is_tile, one_left),
        refl,
        ground (arith, found, placed, type_found, left, back),
        refl,
      )
