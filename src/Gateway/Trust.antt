-- ===== src/Gateway/Trust.antt =====
-- Who a request acts for, as it is handed to the gRPC client.
use cifarm_server_alternativ.Prelude.{ℕ, ◌≡◌, refl, ap, none, some, if◌then◌else◌}
use cifarm_server_alternativ.Result.{ok, err, unauthorized, type_error}
use cifarm_server_alternativ.Gateway.{
  sent, has_rpc, forward, forward_claim, forward_community, forward_delivery, forward_farming,
  forward_shop, forward_placement, forward_upgrade,
}
use cifarm_server_alternativ.Gateway.Calls.{
  Call, claim, community, delivery, farming, shop, placement, upgrade, ClaimCall, CommunityCall,
  DeliveryCall, FarmingCall, ShopCall, PlacementCall, UpgradeCall,
}
use cifarm_server_alternativ.Gateway.Forward.{forward-forward}

-- The user that a call of this kind names.
abbrev pub claim_caller : ClaimCall → ℕ
claim_caller (ClaimCall.claim_daily_reward user_id) = user_id
claim_caller (ClaimCall.spin user_id) = user_id

-- The user that a call of this kind names.
abbrev pub community_caller : CommunityCall → ℕ
community_caller (CommunityCall.follow user_id _) = user_id
community_caller (CommunityCall.help_cure_animal user_id _ _) = user_id
community_caller (CommunityCall.help_use_herbicide user_id _ _) = user_id
community_caller (CommunityCall.help_use_pesticide user_id _ _) = user_id
community_caller (CommunityCall.help_water user_id _ _) = user_id
community_caller (CommunityCall.thief_animal_product user_id _ _) = user_id
community_caller (CommunityCall.thief_crop user_id _ _) = user_id
community_caller (CommunityCall.unfollow user_id _) = user_id

-- The user that a call of this kind names.
abbrev pub delivery_caller : DeliveryCall → ℕ
delivery_caller (DeliveryCall.deliver_product user_id _ _ _) = user_id
delivery_caller (DeliveryCall.retain_product user_id _) = user_id

-- The user that a call of this kind names.
abbrev pub farming_caller : FarmingCall → ℕ
farming_caller (FarmingCall.collect_animal_product user_id _) = user_id
farming_caller (FarmingCall.cure_animal user_id _) = user_id
farming_caller (FarmingCall.feed_animal user_id _) = user_id
farming_caller (FarmingCall.harvest_crop user_id _) = user_id
farming_caller (FarmingCall.plant_seed user_id _ _) = user_id
farming_caller (FarmingCall.use_fertilizer user_id _) = user_id
farming_caller (FarmingCall.use_herbicide user_id _) = user_id
farming_caller (FarmingCall.use_pesticide user_id _) = user_id
farming_caller (FarmingCall.water user_id _) = user_id

-- The user that a call of this kind names.
abbrev pub shop_caller : ShopCall → ℕ
shop_caller (ShopCall.buy_seeds user_id _ _) = user_id
shop_caller (ShopCall.buy_animal user_id _ _ _) = user_id
shop_caller (ShopCall.buy_supplies user_id _ _) = user_id
shop_caller (ShopCall.buy_tile user_id _) = user_id
shop_caller (ShopCall.construct_building user_id _ _) = user_id

-- The user that a call of this kind names.
abbrev pub placement_caller : PlacementCall → ℕ
placement_caller (PlacementCall.move user_id _ _) = user_id
placement_caller (PlacementCall.place_tile user_id _ _) = user_id
placement_caller (PlacementCall.recover_tile user_id _) = user_id

-- The user that a call of this kind names.
abbrev pub upgrade_caller : UpgradeCall → ℕ
upgrade_caller (UpgradeCall.upgrade_building user_id _) = user_id

abbrev pub caller : Call → ℕ
caller (claim call) = claim_caller call
caller (community call) = community_caller call
caller (delivery call) = delivery_caller call
caller (farming call) = farming_caller call
caller (shop call) = shop_caller call
caller (placement call) = placement_caller call
caller (upgrade call) = upgrade_caller call

claim_forwarded :
    (user : ℕ) (call : ClaimCall)
    → (claim_caller (forward_claim user call) ≡ user)
      × (forward_claim (claim_caller call) (forward_claim user call) ≡ call)
unfolding forward_claim
claim_forwarded user (ClaimCall.claim_daily_reward user_id) = (refl, refl)
claim_forwarded user (ClaimCall.spin user_id) = (refl, refl)

community_forwarded :
    (user : ℕ) (call : CommunityCall)
    → (community_caller (forward_community user call) ≡ user)
      × (forward_community (community_caller call) (forward_community user call) ≡ call)
unfolding forward_community
community_forwarded user (CommunityCall.follow user_id followed_user_id) = (refl, refl)
community_forwarded user (CommunityCall.help_cure_animal user_id neighbor_user_id placed_item_id) =
    (refl, refl)
community_forwarded user
      (CommunityCall.help_use_herbicide user_id neighbor_user_id placed_item_id) =
    (refl, refl)
community_forwarded user
      (CommunityCall.help_use_pesticide user_id neighbor_user_id placed_item_id) =
    (refl, refl)
community_forwarded user (CommunityCall.help_water user_id neighbor_user_id placed_item_id) =
    (refl, refl)
community_forwarded user
      (CommunityCall.thief_animal_product user_id neighbor_user_id placed_item_id) =
    (refl, refl)
community_forwarded user (CommunityCall.thief_crop user_id neighbor_user_id placed_item_id) =
    (refl, refl)
community_forwarded user (CommunityCall.unfollow user_id unfollowed_user_id) = (refl, refl)

delivery_forwarded :
    (user : ℕ) (call : DeliveryCall)
    → (delivery_caller (forward_delivery user call) ≡ user)
      × (forward_delivery (delivery_caller call) (forward_delivery user call) ≡ call)
unfolding forward_delivery
delivery_forwarded user (DeliveryCall.deliver_product user_id inventory_id quantity index) =
    (refl, refl)
delivery_forwarded user (DeliveryCall.retain_product user_id delivering_product_id) = (refl, refl)

farming_forwarded :
    (user : ℕ) (call : FarmingCall)
    → (farming_caller (forward_farming user call) ≡ user)
      × (forward_farming (farming_caller call) (forward_farming user call) ≡ call)
unfolding forward_farming
farming_forwarded user (FarmingCall.collect_animal_product user_id placed_item_id) = (refl, refl)
farming_forwarded user (FarmingCall.cure_animal user_id placed_item_id) = (refl, refl)
farming_forwarded user (FarmingCall.feed_animal user_id placed_item_id) = (refl, refl)
farming_forwarded user (FarmingCall.harvest_crop user_id placed_item_id) = (refl, refl)
farming_forwarded user (FarmingCall.plant_seed user_id inventory_seed_id placed_item_id) =
    (refl, refl)
farming_forwarded user (FarmingCall.use_fertilizer user_id placed_item_id) = (refl, refl)
farming_forwarded user (FarmingCall.use_herbicide user_id placed_item_id) = (refl, refl)
farming_forwarded user (FarmingCall.use_pesticide user_id placed_item_id) = (refl, refl)
farming_forwarded user (FarmingCall.water user_id placed_item_id) = (refl, refl)

shop_forwarded :
    (user : ℕ) (call : ShopCall)
    → (shop_caller (forward_shop user call) ≡ user)
      × (forward_shop (shop_caller call) (forward_shop user call) ≡ call)
unfolding forward_shop
shop_forwarded user (ShopCall.buy_seeds user_id crop_id quantity) = (refl, refl)
shop_forwarded user (ShopCall.buy_animal user_id animal_id house_id at) = (refl, refl)
shop_forwarded user (ShopCall.buy_supplies user_id supply_id quantity) = (refl, refl)
shop_forwarded user (ShopCall.buy_tile user_id at) = (refl, refl)
shop_forwarded user (ShopCall.construct_building user_id building_id at) = (refl, refl)

placement_forwarded :
    (user : ℕ) (call : PlacementCall)
    → (placement_caller (forward_placement user call) ≡ user)
      × (forward_placement (placement_caller call) (forward_placement user call) ≡ call)
unfolding forward_placement
placement_forwarded user (PlacementCall.move user_id placed_item_id at) = (refl, refl)
placement_forwarded user (PlacementCall.place_tile user_id inventory_tile_id at) = (refl, refl)
placement_forwarded user (PlacementCall.recover_tile user_id placed_item_tile_id) = (refl, refl)

upgrade_forwarded :
    (user : ℕ) (call : UpgradeCall)
    → (upgrade_caller (forward_upgrade user call) ≡ user)
      × (forward_upgrade (upgrade_caller call) (forward_upgrade user call) ≡ call)
unfolding forward_upgrade
upgrade_forwarded user (UpgradeCall.upgrade_building user_id placed_item_id) = (refl, refl)

caller-forward :
    (user : ℕ) (call : Call)
    → (caller (forward user call) ≡ user) × (forward (caller call) (forward user call) ≡ call)
unfolding forward
caller-forward user (claim call) =
    let (named, back) = claim_forwarded user call in (named, ap claim back)
caller-forward user (community call) =
    let (named, back) = community_forwarded user call in (named, ap community back)
caller-forward user (delivery call) =
    let (named, back) = delivery_forwarded user call in (named, ap delivery back)
caller-forward user (farming call) =
    let (named, back) = farming_forwarded user call in (named, ap farming back)
caller-forward user (shop call) =
    let (named, back) = shop_forwarded user call in (named, ap shop back)
caller-forward user (placement call) =
    let (named, back) = placement_forwarded user call in (named, ap placement back)
caller-forward user (upgrade call) =
    let (named, back) = upgrade_forwarded user call in (named, ap upgrade back)

has_rpc-forward : (user : ℕ) (call : Call) → has_rpc (forward user call) ≡ has_rpc call
unfolding forward forward_community
has_rpc-forward user (claim call) = refl
has_rpc-forward user (community (CommunityCall.follow _ _)) = refl
has_rpc-forward user (community (CommunityCall.help_cure_animal _ _ _)) = refl
has_rpc-forward user (community (CommunityCall.help_use_herbicide _ _ _)) = refl
has_rpc-forward user (community (CommunityCall.help_use_pesticide _ _ _)) = refl
has_rpc-forward user (community (CommunityCall.help_water _ _ _)) = refl
has_rpc-forward user (community (CommunityCall.thief_animal_product _ _ _)) = refl
has_rpc-forward user (community (CommunityCall.thief_crop _ _ _)) = refl
has_rpc-forward user (community (CommunityCall.unfollow _ _)) = refl
has_rpc-forward user (delivery call) = refl
has_rpc-forward user (farming call) = refl
has_rpc-forward user (shop call) = refl
has_rpc-forward user (placement call) = refl
has_rpc-forward user (upgrade call) = refl

-- A guarded route refuses a request without a good token. With one, it fails where the gRPC client
-- has no method for the request; for every other request it hands the client the request in which
-- the user is that of the token and all else is as in the body, so that it makes no difference
-- which user the body names.
pub acts_for_token :
    (token : ℕ) (call : Call)
    → (sent none call ≡ err unauthorized)
      × (sent (some token) call
          ≡ (if has_rpc call then ok (forward token call) else err type_error))
      × (caller (forward token call) ≡ token)
      × (forward (caller call) (forward token call) ≡ call)
      × ((claimed : ℕ) → sent (some token) (forward claimed call) ≡ sent (some token) call)
unfolding sent
acts_for_token token call =
    let (named, back) = caller-forward token call in
    (
      refl,
      refl,
      named,
      back,
      λ claimed. rw (has_rpc-forward claimed call, forward-forward token claimed call),
    )
