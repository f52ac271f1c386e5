-- ===== src/Gateway/Forward.antt =====
-- The last user that is put into a request is the one that stays.
use cifarm_server_alternativ.Prelude.{ℕ, ◌≡◌, refl, ap}
use cifarm_server_alternativ.Gateway.{
  forward, forward_claim, forward_community, forward_delivery, forward_farming, forward_shop,
  forward_placement, forward_upgrade,
}
use cifarm_server_alternativ.Gateway.Calls.{
  Call, claim, community, delivery, farming, shop, placement, upgrade, ClaimCall, CommunityCall,
  DeliveryCall, FarmingCall, ShopCall, PlacementCall, UpgradeCall,
}

claim_again :
    (user other : ℕ) (call : ClaimCall)
    → forward_claim user (forward_claim other call) ≡ forward_claim user call
unfolding forward_claim
claim_again user other (ClaimCall.claim_daily_reward user_id) = refl
claim_again user other (ClaimCall.spin user_id) = refl

community_again :
    (user other : ℕ) (call : CommunityCall)
    → forward_community user (forward_community other call) ≡ forward_community user call
unfolding forward_community
community_again user other (CommunityCall.follow user_id followed_user_id) = refl
community_again user other
      (CommunityCall.help_cure_animal user_id neighbor_user_id placed_item_id) =
    refl
community_again user other
      (CommunityCall.help_use_herbicide user_id neighbor_user_id placed_item_id) =
    refl
community_again user other
      (CommunityCall.help_use_pesticide user_id neighbor_user_id placed_item_id) =
    refl
community_again user other (CommunityCall.help_water user_id neighbor_user_id placed_item_id) = refl
community_again user other
      (CommunityCall.thief_animal_product user_id neighbor_user_id placed_item_id) =
    refl
community_again user other (CommunityCall.thief_crop user_id neighbor_user_id placed_item_id) = refl
community_again user other (CommunityCall.unfollow user_id unfollowed_user_id) = refl

delivery_again :
    (user other : ℕ) (call : DeliveryCall)
    → forward_delivery user (forward_delivery other call) ≡ forward_delivery user call
unfolding forward_delivery
delivery_again user other (DeliveryCall.deliver_product user_id inventory_id quantity index) = refl
delivery_again user other (DeliveryCall.retain_product user_id delivering_product_id) = refl

farming_again :
    (user other : ℕ) (call : FarmingCall)
    → forward_farming user (forward_farming other call) ≡ forward_farming user call
unfolding forward_farming
farming_again user other (FarmingCall.collect_animal_product user_id placed_item_id) = refl
farming_again user other (FarmingCall.cure_animal user_id placed_item_id) = refl
farming_again user other (FarmingCall.feed_animal user_id placed_item_id) = refl
farming_again user other (FarmingCall.harvest_crop user_id placed_item_id) = refl
farming_again user other (FarmingCall.plant_seed user_id inventory_seed_id placed_item_id) = refl
farming_again user other (FarmingCall.use_fertilizer user_id placed_item_id) = refl
farming_again user other (FarmingCall.use_herbicide user_id placed_item_id) = refl
farming_again user other (FarmingCall.use_pesticide user_id placed_item_id) = refl
farming_again user other (FarmingCall.water user_id placed_item_id) = refl

shop_again :
    (user other : ℕ) (call : ShopCall)
    → forward_shop user (forward_shop other call) ≡ forward_shop user call
unfolding forward_shop
shop_again user other (ShopCall.buy_seeds user_id crop_id quantity) = refl
shop_again user other (ShopCall.buy_animal user_id animal_id house_id at) = refl
shop_again user other (ShopCall.buy_supplies user_id supply_id quantity) = refl
shop_again user other (ShopCall.buy_tile user_id at) = refl
shop_again user other (ShopCall.construct_building user_id building_id at) = refl

placement_again :
    (user other : ℕ) (call : PlacementCall)
    → forward_placement user (forward_placement other call) ≡ forward_placement user call
unfolding forward_placement
placement_again user other (PlacementCall.move user_id placed_item_id at) = refl
placement_again user other (PlacementCall.place_tile user_id inventory_tile_id at) = refl
placement_again user other (PlacementCall.recover_tile user_id placed_item_tile_id) = refl

upgrade_again :
    (user other : ℕ) (call : UpgradeCall)
    → forward_upgrade user (forward_upgrade other call) ≡ forward_upgrade user call
unfolding forward_upgrade
upgrade_again user other (UpgradeCall.upgrade_building user_id placed_item_id) = refl

pub forward-forward :
    (user other : ℕ) (call : Call) → forward user (forward other call) ≡ forward user call
unfolding forward
forward-forward user other (claim call) = ap claim (claim_again user other call)
forward-forward user other (community call) = ap community (community_again user other call)
forward-forward user other (delivery call) = ap delivery (delivery_again user other call)
forward-forward user other (farming call) = ap farming (farming_again user other call)
forward-forward user other (shop call) = ap shop (shop_again user other call)
forward-forward user other (placement call) = ap placement (placement_again user other call)
forward-forward user other (upgrade call) = ap upgrade (upgrade_again user other call)
