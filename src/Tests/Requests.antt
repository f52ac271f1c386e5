-- ===== src/Tests/Requests.antt =====
-- Spins, tiles, deliveries and requests, on the two farms.
use cifarm_server_alternativ.Prelude.{
  ℕ, refl, ◌≡◌, false, none, some, [], ◌∷◌, ℤ, pos, ◌-ℤ◌, Option, arith, int_laws,
}
use cifarm_server_alternativ.Result.{ok, err, grpc_permission_denied, unauthorized}
use cifarm_server_alternativ.Entities.{
  InventoryType, InventoryEntity, DeliveringProductEntity, Position, InventoryTypeEntity,
}
use cifarm_server_alternativ.Database.{
  Statement, save_inventories, no_relations, delete_placed_item, insert_delivering_product,
  update_inventory,
}
use cifarm_server_alternativ.Service.{World, perform, finish, Plan}
use cifarm_server_alternativ.Claim.Spin.{spin}
use cifarm_server_alternativ.Claim.Spin.Twice.{spin_twice_refused}
use cifarm_server_alternativ.Delivery.Sign.{IsDelivered}
use cifarm_server_alternativ.Placement.{place_tile, recover_tile}
use cifarm_server_alternativ.Placement.Tile.{recover-place}
use cifarm_server_alternativ.Gateway.{forward, sent}
use cifarm_server_alternativ.Gateway.Calls.{farming, FarmingCall}
use cifarm_server_alternativ.Gateway.Trust.{caller, acts_for_token}
use cifarm_server_alternativ.Tests.Memory.{Tables, memory, placed_entity}
use cifarm_server_alternativ.Tests.Memory.Laws.{memory_laws}
use cifarm_server_alternativ.Tests.Sample.{farm, start, tile, stock, inventory_type}

abbrev spun : World memory
spun = (perform memory (spin memory (pos 7) 100 10 0 1) start).1

abbrev tile_type : InventoryTypeEntity
tile_type = inventory_type 4 InventoryType.tile none none

abbrev tiles : ℤ → InventoryEntity
tiles quantity = record (stock 3 quantity) {
  inventory_type_id = 4;
  inventory_type = some tile_type;
}

-- The farms with three tiles in the first user's inventory, and with two.
abbrev with_tiles : ℤ → Tables
with_tiles quantity = record farm {
  inventories = tiles quantity ∷ [];
  types =
      record {
        type = tile_type;
        supply_id = none;
        product_crop_id = none;
        tile_id = some 1;
        product_animal_id = none;
      }
      ∷ [];
}

abbrev at : Position
at = record { x = pos 4; y = pos 5 }

abbrev parcel : Option ℕ → DeliveringProductEntity
parcel i = record {
  id = i;
  user_id = 1;
  quantity = pos 2;
  premium = false;
  index = pos 0;
  product_id = some 1;
}

-- The farms after the delivery of two products.
abbrev returned : Tables
returned = record farm { inventories = stock 1 (pos 3) ∷ []; deliveries = parcel (some 6) ∷ [] }

abbrev delivered :
    IsDelivered memory 1 1
      (pos 2)
      (pos 0)
      farm
      (save_inventories (stock 1 (pos 3) ∷ []) ∷ insert_delivering_product (parcel none) ∷ [])
delivered = record {
  inventory = stock 1 (pos 5);
  type = inventory_type 2 InventoryType.product none (some 1);
  product = parcel none;
  inventory_found = refl;
  type_found = refl;
  deliverable = refl;
  enough = omega arith;
  kept = save_inventories (stock 1 (pos 3) ∷ []);
  written = refl;
  conserved = omega int_laws;
  not_negative = omega arith;
  sent = refl;
  same_owner = refl;
  same_premium = refl;
  same_product = refl;
}

spin_twice_refused_example :
    perform memory (spin memory (pos 8) 100 20 0 1) spun
    ≡ (err (grpc_permission_denied "Spin is blocked for 24 hours"), spun)
unfolding spin perform finish cifarm_server_alternativ.Gameplay.Wallet.add_golds ◌-ℤ◌
spin_twice_refused_example =
    spin_twice_refused memory 100 10 0 100 20 0 1 (pos 7) (pos 8) 1 start spun memory_laws refl
      (omega arith)

recover-place_example :
    (placed : Plan (Unit {0})) × (recovered : Plan (Option ℕ)) × (new : Statement) × (place_tile
        memory 3 1 at
        (with_tiles (pos 3))
      ≡ ok placed)
    × (placed.statements ≡ ok (update_inventory (some 3) (pos 3 -ℤ pos 1) ∷ new ∷ []))
    × (recover_tile memory 1 1 (with_tiles (pos 3 -ℤ pos 1)) ≡ ok recovered)
    × (recovered.statements
        ≡ ok (delete_placed_item 1 1 ∷ save_inventories (tiles (pos 3) ∷ []) ∷ []))
recover-place_example =
    recover-place memory 3 1 1 at (with_tiles (pos 3)) (with_tiles (pos 3 -ℤ pos 1)) (tiles (pos 3))
      tile_type (placed_entity no_relations farm (tile 1 1)) refl refl refl (omega arith)
      (omega arith) refl refl refl refl

acts_for_token_example :
    (sent none (farming (FarmingCall.water 2 1)) ≡ err unauthorized)
    × (sent (some 1) (farming (FarmingCall.water 2 1))
        ≡ ok (forward 1 (farming (FarmingCall.water 2 1))))
    × (caller (forward 1 (farming (FarmingCall.water 2 1))) ≡ 1)
    × (forward 2 (forward 1 (farming (FarmingCall.water 2 1))) ≡ farming (FarmingCall.water 2 1))
    × ((claimed : ℕ)
        → sent (some 1) (forward claimed (farming (FarmingCall.water 2 1)))
          ≡ sent (some 1) (farming (FarmingCall.water 2 1)))
acts_for_token_example = acts_for_token 1 (farming (FarmingCall.water 2 1))
