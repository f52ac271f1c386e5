-- ===== src/Farming/Seeds/Planting.antt =====
-- What planting a seed takes and gives, and what it does not look at.
use cifarm_server_alternativ.Prelude.{
  ℕ, ◌≡◌, ◌≢◌, refl, none, some, List, [], ◌∷◌, ℤ, pos, ◌+ℤ◌, ◌-ℤ◌, ◌≤ℤ◌, arith, inl, inr,
  Option-cases,
}
use cifarm_server_alternativ.Result.{ok, err, grpc_failed_precondition}
use cifarm_server_alternativ.Entities.{
  InventoryType, InventoryEntity, InventoryTypeEntity, PlacedItemEntity, CropEntity, UserEntity,
  UserChanges, Activities,
}
use cifarm_server_alternativ.Database.{
  Database, DatabaseLaws, no_relations, any_inventory, Statement, update_user, update_inventory,
  insert_seed_growth_info, user_after,
}
use cifarm_server_alternativ.Service.{World, perform, finish}
use cifarm_server_alternativ.Gameplay.Activity.{activity_changes}
use cifarm_server_alternativ.Gameplay.Activity.Paid.{IsPaid}
use cifarm_server_alternativ.Gameplay.Inventory
use cifarm_server_alternativ.Gameplay.Energy
use cifarm_server_alternativ.Gameplay.Level
use cifarm_server_alternativ.Farming.Seeds.{taken, plant_seed}

-- The quantity that a statement leaves in an inventory.
abbrev pub remaining : Statement → ℤ
remaining (update_inventory i quantity) = quantity
remaining _ = pos 0

module _ (db : Database) (user_id seed_id tile_id : ℕ) where
  record Found (s : db.State) (statements : List Statement) : Type 0 where
    seed : InventoryEntity
    tile : PlacedItemEntity
    value : Activities
    user : UserEntity
    changes : UserChanges
    type : InventoryTypeEntity
    crop : CropEntity
    seed_found :
        db.find_inventory
          (record any_inventory { id = some seed_id; type = some InventoryType.seed })
          s
        ≡ some seed
    tile_found :
        db.find_placed_item (record { id = tile_id; user_id = none; type = none }) no_relations s
        ≡ some tile
    priced : db.find_activities s ≡ some value
    user_found : db.find_user user_id s ≡ some user
    payable : activity_changes user value.water ≡ ok changes
    typed : seed.inventory_type ≡ some type
    crop_found : db.find_crop type.crop_id s ≡ some crop
    in_stock : pos 1 ≤ℤ seed.quantity
    written :
        statements
        ≡ update_user user.id changes
          ∷ taken seed (seed.quantity -ℤ pos 1)
          ∷ insert_seed_growth_info (record {
            placed_item_id = tile.id;
            harvest_quantity_remaining = crop.max_harvest_quantity;
            crop_id = crop.id;
          })
          ∷ []

  -- The user has paid for the activity and has a seed less, and the crop of the seed is on the tile.
  pub record IsPlanted (s s' : db.State) (statements : List Statement) : Type 0 where
    pub seed : InventoryEntity
    pub type : InventoryTypeEntity
    pub crop : CropEntity
    pub value : Activities
    pub user : UserEntity
    pub user' : UserEntity
    pub changes : UserChanges
    pub taken_from : Statement
    pub seed_found :
        db.find_inventory
          (record any_inventory { id = some seed_id; type = some InventoryType.seed })
          s
        ≡ some seed
    pub typed : seed.inventory_type ≡ some type
    pub crop_found : db.find_crop type.crop_id s ≡ some crop
    -- one seed is used up, and none is owed
    pub used : remaining taken_from +ℤ pos 1 ≡ seed.quantity
    pub not_owed : pos 0 ≤ℤ remaining taken_from
    pub written :
        statements
        ≡ update_user user.id changes
          ∷ taken_from
          ∷ insert_seed_growth_info (record {
            placed_item_id = tile_id;
            harvest_quantity_remaining = crop.max_harvest_quantity;
            crop_id = crop.id;
          })
          ∷ []
    pub priced : db.find_activities s ≡ some value
    pub user_before : db.find_user user_id s ≡ some user
    pub user_after : db.find_user user_id s' ≡ some user'
    pub paid : IsPaid value.water user user'

  -- On a database that meets the laws, `plant_seed` never answers that the tile is already planted.
  pub plant_seed_over_crop :
      DatabaseLaws db
      → (w : World db)
      → (perform db (plant_seed db user_id seed_id tile_id) w).0
        ≢ err (grpc_failed_precondition "Tile is already planted")
  unfolding plant_seed perform finish activity_changes Energy.check_sufficient Energy.substract
      Level.add_experiences Inventory.remove
  plant_seed_over_crop laws w h =
      elim (Option-cases (
        db.find_inventory
          (record any_inventory { id = some seed_id; type = some InventoryType.seed }) w.state)) [
            | inl no_seed ↦ ground arith
            | inr (seed, seed_found) ↦
                elim (Option-cases (
                  db.find_placed_item (record { id = tile_id; user_id = none; type = none })
                    no_relations w.state)) [
                      | inl no_tile ↦ ground arith
                      | inr (tile, tile_found) ↦
                          let bare =
                            laws.crop_not_loaded _ no_relations w.state tile tile_found refl in
                          ground arith
                    ]
          ]
