-- ===== src/Shop/Tiles.antt =====
-- `BuyTileService`: the kind of the tile is the first, in the order of the tiles, of which the user
-- has fewer than the maximum.
pub mod Order
use cifarm_server_alternativ.Prelude.{
  ℕ, ◌+◌, Option, none, some, List, [], ◌∷◌, not, ℤ, pos, ltb_ℤ, if◌then◌else◌,
}
use cifarm_server_alternativ.Result.{
  Result, ok, err, ◌>>=◌, ◌>>◌, throw_if, or_throw, deref, grpc_not_found, grpc_failed_precondition,
}
use cifarm_server_alternativ.Entities.{PlacedItemType}
use cifarm_server_alternativ.Database.{Database, Statement, update_user, insert_placed_item}
use cifarm_server_alternativ.Service.{Plan, Handler}
use cifarm_server_alternativ.Gameplay.Wallet

module _ (db : Database) where
  -- The loop of `determineCurrentTileId` over `tileOrder`.
  unfoldable pub determine_current_tile_id : ℕ → List ℕ → db.State → Result ℕ
  determine_current_tile_id user_id [] s = err (grpc_failed_precondition "No tile available")
  determine_current_tile_id user_id (tile_id ∷ rest) s =
      let later = determine_current_tile_id user_id rest s in
      deref (db.find_tile tile_id s) >>= λ tile.
      let inventory_tile_count = db.count_inventory_tiles user_id tile_id s in
      let placed_items_count = db.count_placed_tiles user_id tile_id s in
      if ltb_ℤ (pos (placed_items_count + inventory_tile_count)) tile.max_ownership
      then ok tile_id
      else later

  unfoldable pub buy_tile : List ℕ → ℕ → ℤ → ℤ → Handler db (Unit {0})
  buy_tile tile_order user_id x y s = do
    current_tile_id ← determine_current_tile_id user_id tile_order s
    tile ← or_throw (db.find_tile current_tile_id s) (grpc_not_found "Tile not found")
    throw_if (not tile.available_in_shop) (grpc_failed_precondition "Tile not available in shop")
    let total_cost = tile.price
    user ← deref (db.find_user user_id s)
    Wallet.check_sufficient_golds user.golds total_cost
    placed_item_type_id ← deref (db.find_placed_item_type PlacedItemType.tile current_tile_id s)
    golds_changed ← Wallet.subtract_golds user total_cost
    ok (record {
      statements = ok (
          update_user user.id golds_changed
          ∷ insert_placed_item (record {
            user_id = user_id;
            x = x;
            y = y;
            placed_item_type_id = placed_item_type_id;
            parent_id = none;
            animal_id = none;
            building_info = none;
          })
          ∷ []);
      messages = [];
      response = tt;
    })
