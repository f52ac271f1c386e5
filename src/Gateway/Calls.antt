-- ===== src/Gateway/Calls.antt =====
-- The routes of `GameplayController` (apps/rest-api-gateway/src/v1/gameplay/gameplay.controller.ts)
-- that need a user, in the order of the source. A request is the body that a client sends, which may
-- name a user.
use cifarm_server_alternativ.Prelude.{ℕ, ℤ}
use cifarm_server_alternativ.Entities.{Position}

pub data ClaimCall : Type 0 where
  claim_daily_reward : (user_id : ℕ) → ClaimCall
  spin : (user_id : ℕ) → ClaimCall

pub data CommunityCall : Type 0 where
  follow : (user_id : ℕ) (followed_user_id : ℕ) → CommunityCall
  help_cure_animal : (user_id : ℕ) (neighbor_user_id : ℕ) (placed_item_id : ℕ) → CommunityCall
  help_use_herbicide : (user_id : ℕ) (neighbor_user_id : ℕ) (placed_item_id : ℕ) → CommunityCall
  help_use_pesticide : (user_id : ℕ) (neighbor_user_id : ℕ) (placed_item_id : ℕ) → CommunityCall
  help_water : (user_id : ℕ) (neighbor_user_id : ℕ) (placed_item_id : ℕ) → CommunityCall
  thief_animal_product : (user_id : ℕ) (neighbor_user_id : ℕ) (placed_item_id : ℕ) → CommunityCall
  thief_crop : (user_id : ℕ) (neighbor_user_id : ℕ) (placed_item_id : ℕ) → CommunityCall
  unfollow : (user_id : ℕ) (unfollowed_user_id : ℕ) → CommunityCall

pub data DeliveryCall : Type 0 where
  deliver_product : (user_id : ℕ) (inventory_id : ℕ) (quantity : ℤ) (index : ℤ) → DeliveryCall
  retain_product : (user_id : ℕ) (delivering_product_id : ℕ) → DeliveryCall

pub data FarmingCall : Type 0 where
  collect_animal_product : (user_id : ℕ) (placed_item_id : ℕ) → FarmingCall
  cure_animal : (user_id : ℕ) (placed_item_id : ℕ) → FarmingCall
  feed_animal : (user_id : ℕ) (placed_item_id : ℕ) → FarmingCall
  harvest_crop : (user_id : ℕ) (placed_item_id : ℕ) → FarmingCall
  plant_seed : (user_id : ℕ) (inventory_seed_id : ℕ) (placed_item_id : ℕ) → FarmingCall
  use_fertilizer : (user_id : ℕ) (placed_item_id : ℕ) → FarmingCall
  use_herbicide : (user_id : ℕ) (placed_item_id : ℕ) → FarmingCall
  use_pesticide : (user_id : ℕ) (placed_item_id : ℕ) → FarmingCall
  water : (user_id : ℕ) (placed_item_id : ℕ) → FarmingCall

pub data ShopCall : Type 0 where
  buy_seeds : (user_id : ℕ) (crop_id : ℕ) (quantity : ℤ) → ShopCall
  buy_animal : (user_id : ℕ) (animal_id : ℕ) (house_id : ℕ) (at : Position) → ShopCall
  buy_supplies : (user_id : ℕ) (supply_id : ℕ) (quantity : ℤ) → ShopCall
  buy_tile : (user_id : ℕ) (at : Position) → ShopCall
  construct_building : (user_id : ℕ) (building_id : ℕ) (at : Position) → ShopCall

pub data PlacementCall : Type 0 where
  move : (user_id : ℕ) (placed_item_id : ℕ) (at : Position) → PlacementCall
  place_tile : (user_id : ℕ) (inventory_tile_id : ℕ) (at : Position) → PlacementCall
  recover_tile : (user_id : ℕ) (placed_item_tile_id : ℕ) → PlacementCall

pub data UpgradeCall : Type 0 where
  upgrade_building : (user_id : ℕ) (placed_item_id : ℕ) → UpgradeCall

pub data Call : Type 0 where
  claim : ClaimCall → Call
  community : CommunityCall → Call
  delivery : DeliveryCall → Call
  farming : FarmingCall → Call
  shop : ShopCall → Call
  placement : PlacementCall → Call
  upgrade : UpgradeCall → Call
