-- ===== src/Gateway.antt =====
-- `GameplayController` (apps/rest-api-gateway/src/v1/gameplay/gameplay.controller.ts): a guarded route
-- puts the id of the user of the token into the request, `{ ...request, userId: user?.id }`, and
-- hands it to the method of the gRPC client that has its name. The token is verified by the strategy
-- of Passport; here it is its user, if the token is good. What the client makes of the request is not
-- modelled: it sends the fields that the message in proto/gameplay_service declares, and no others.
-- The routes of authentication are in Session, and those of the profile are left out.
pub mod Calls
pub mod Forward
pub mod Trust
pub mod Session
use cifarm_server_alternativ.Prelude.{ℕ, Bool, true, false, Option, none, some, if◌then◌else◌}
use cifarm_server_alternativ.Result.{Result, ok, err, unauthorized, type_error}
use Calls.{
  Call, claim, community, delivery, farming, shop, placement, upgrade, ClaimCall, CommunityCall,
  DeliveryCall, FarmingCall, ShopCall, PlacementCall, UpgradeCall,
}

unfoldable pub forward_claim : (user : ℕ) → ClaimCall → ClaimCall
forward_claim user (ClaimCall.claim_daily_reward user_id) = ClaimCall.claim_daily_reward user
forward_claim user (ClaimCall.spin user_id) = ClaimCall.spin user

unfoldable pub forward_community : (user : ℕ) → CommunityCall → CommunityCall
forward_community user (CommunityCall.follow user_id followed_user_id) =
    CommunityCall.follow user followed_user_id
forward_community user (CommunityCall.help_cure_animal user_id neighbor_user_id placed_item_id) =
    CommunityCall.help_cure_animal user neighbor_user_id placed_item_id
forward_community user (CommunityCall.help_use_herbicide user_id neighbor_user_id placed_item_id) =
    CommunityCall.help_use_herbicide user neighbor_user_id placed_item_id
forward_community user (CommunityCall.help_use_pesticide user_id neighbor_user_id placed_item_id) =
    CommunityCall.help_use_pesticide user neighbor_user_id placed_item_id
forward_community user (CommunityCall.help_water user_id neighbor_user_id placed_item_id) =
    CommunityCall.help_water user neighbor_user_id placed_item_id
forward_community user
      (CommunityCall.thief_animal_product user_id neighbor_user_id placed_item_id) =
    CommunityCall.thief_animal_product user neighbor_user_id placed_item_id
forward_community user (CommunityCall.thief_crop user_id neighbor_user_id placed_item_id) =
    CommunityCall.thief_crop user neighbor_user_id placed_item_id
forward_community user (CommunityCall.unfollow user_id unfollowed_user_id) =
    CommunityCall.unfollow user unfollowed_user_id

unfoldable pub forward_delivery : (user : ℕ) → DeliveryCall → DeliveryCall
forward_delivery user (DeliveryCall.deliver_product user_id inventory_id quantity index) =
    DeliveryCall.deliver_product user inventory_id quantity index
forward_delivery user (DeliveryCall.retain_product user_id delivering_product_id) =
    DeliveryCall.retain_product user delivering_product_id

unfoldable pub forward_farming : (user : ℕ) → FarmingCall → FarmingCall
forward_farming user (FarmingCall.collect_animal_product user_id placed_item_id) =
    FarmingCall.collect_animal_product user placed_item_id
forward_farming user (FarmingCall.cure_animal user_id placed_item_id) =
    FarmingCall.cure_animal user placed_item_id
forward_farming user (FarmingCall.feed_animal user_id placed_item_id) =
    FarmingCall.feed_animal user placed_item_id
forward_farming user (FarmingCall.harvest_crop user_id placed_item_id) =
    FarmingCall.harvest_crop user placed_item_id
forward_farming user (FarmingCall.plant_seed user_id inventory_seed_id placed_item_id) =
    FarmingCall.plant_seed user inventory_seed_id placed_item_id
forward_farming user (FarmingCall.use_fertilizer user_id placed_item_id) =
    FarmingCall.use_fertilizer user placed_item_id
forward_farming user (FarmingCall.use_herbicide user_id placed_item_id) =
    FarmingCall.use_herbicide user placed_item_id
forward_farming user (FarmingCall.use_pesticide user_id placed_item_id) =
    FarmingCall.use_pesticide user placed_item_id
forward_farming user (FarmingCall.water user_id placed_item_id) =
    FarmingCall.water user placed_item_id

unfoldable pub forward_shop : (user : ℕ) → ShopCall → ShopCall
forward_shop user (ShopCall.buy_seeds user_id crop_id quantity) =
    ShopCall.buy_seeds user crop_id quantity
forward_shop user (ShopCall.buy_animal user_id animal_id house_id at) =
    ShopCall.buy_animal user animal_id house_id at
forward_shop user (ShopCall.buy_supplies user_id supply_id quantity) =
    ShopCall.buy_supplies user supply_id quantity
forward_shop user (ShopCall.buy_tile user_id at) = ShopCall.buy_tile user at
forward_shop user (ShopCall.construct_building user_id building_id at) =
    ShopCall.construct_building user building_id at

unfoldable pub forward_placement : (user : ℕ) → PlacementCall → PlacementCall
forward_placement user (PlacementCall.move user_id placed_item_id at) =
    PlacementCall.move user placed_item_id at
forward_placement user (PlacementCall.place_tile user_id inventory_tile_id at) =
    PlacementCall.place_tile user inventory_tile_id at
forward_placement user (PlacementCall.recover_tile user_id placed_item_tile_id) =
    PlacementCall.recover_tile user placed_item_tile_id

unfoldable pub forward_upgrade : (user : ℕ) → UpgradeCall → UpgradeCall
forward_upgrade user (UpgradeCall.upgrade_building user_id placed_item_id) =
    UpgradeCall.upgrade_building user placed_item_id

-- The request with the id of the user.
unfoldable pub forward : (user : ℕ) → Call → Call
unfolding forward_claim forward_community forward_delivery forward_farming forward_shop
    forward_placement forward_upgrade
forward user (claim call) = claim (forward_claim user call)
forward user (community call) = community (forward_community user call)
forward user (delivery call) = delivery (forward_delivery user call)
forward user (farming call) = farming (forward_farming user call)
forward user (shop call) = shop (forward_shop user call)
forward user (placement call) = placement (forward_placement user call)
forward user (upgrade call) = upgrade (forward_upgrade user call)

-- The methods of the client are those of the `rpc` lines of entry.proto.
abbrev pub has_rpc : Call → Bool
has_rpc (community (CommunityCall.help_use_herbicide _ _ _)) = false
has_rpc _ = true

-- What a guarded route hands to the client. A method that the client does not have is `undefined`,
-- which cannot be called.
unfoldable pub sent : Option ℕ → Call → Result Call
unfolding forward
sent none call = err unauthorized
sent (some user) call = if has_rpc call then ok (forward user call) else err type_error
