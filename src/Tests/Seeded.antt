-- ===== src/Tests/Seeded.antt =====
-- The workers, the login of a made-up account, and the farm with the seeded wheel.
use cifarm_server_alternativ.Prelude.{
  Option, none, true, ℕ, ◌≡◌, refl, false, some, List, [], ◌∷◌, pos, ◌+ℤ◌, ◌-ℤ◌, ◌*ℤ◌, ◌≤ℤ◌, ◌+◌,
  ==_refl, inl, arith,
}
use cifarm_server_alternativ.Result.{ok, err, transaction_failed, Exception}
use cifarm_server_alternativ.Entities.{SpinSlotEntity, CropCurrentState}
use cifarm_server_alternativ.Service.{World, perform}
use cifarm_server_alternativ.Auth.{VerifySignatureRequest, Tokens, verify_signature}
use cifarm_server_alternativ.Auth.Store.{ChainKey}
use cifarm_server_alternativ.Auth.Signature.{KeyPair, generate_signature, generated_logs_in}
use cifarm_server_alternativ.Claim.Spin.{spin}
use cifarm_server_alternativ.Scheduler.Store.{Job}
use cifarm_server_alternativ.Worker.Delivery.{Delivery, deliver_users}
use cifarm_server_alternativ.Worker.Delivery.Paid.{
  HasProducts, worth, IsPaid, IsOnce, IsAbsent, deliver_users-IsPaid,
}
use cifarm_server_alternativ.Worker.Process.{process_crops}
use cifarm_server_alternativ.Worker.Process.Stuck.{ripe_crop_stops_batch}
use cifarm_server_alternativ.Seed.System
use cifarm_server_alternativ.Seed.Crops
use cifarm_server_alternativ.Seed.Prizes.{spin_prizes, slots_from}
use cifarm_server_alternativ.Seed.Wheel.{seeded_prizes}
use cifarm_server_alternativ.Sockets.{
  Socket, handle_connection, sync_placed_items, process_sync_placed_items_every_second,
}
use cifarm_server_alternativ.Sockets.Heard.{visit_all, visits_heard}
use cifarm_server_alternativ.Tests.Memory.{memory}
use cifarm_server_alternativ.Tests.Sample.{farm, user, growth}
use cifarm_server_alternativ.Tests.Stores.Accounts.{
  Rows, accounts, accounts_laws, sums, credentials, known,
}
use cifarm_server_alternativ.Tests.Stores.Parcels.{
  Parcels, parcels, parcels_laws, Fields, fields, halves_refused,
}

-- Three carrots.
abbrev parcel : Delivery
parcel = record {
  row = record {
    id = some 1;
    user_id = 1;
    quantity = pos 3;
    premium = false;
    index = pos 0;
    product_id = some 0;
  };
  product = some Crops.carrots;
}

abbrev waiting : Parcels
waiting = record {
  user_ids = 1 ∷ 2 ∷ [];
  users = λ i. some (user i);
  deliveries = λ i. parcel ∷ [];
  instantly = false;
  queue = [];
}

deliver_users-IsPaid_example :
    HasProducts (parcel ∷ [])
    × (pos 0 ≤ℤ worth (parcel ∷ []))
    × IsPaid parcels 1 (user 1) (parcel ∷ []) (deliver_users parcels (1 ∷ 2 ∷ []) waiting).1
unfolding deliver_users ◌+ℤ◌ ◌*ℤ◌ cifarm_server_alternativ.Gameplay.Wallet.add_tokens
deliver_users-IsPaid_example =
    deliver_users-IsPaid parcels parcels_laws 1 (user 1) parcel [] (1 ∷ 2 ∷ []) waiting
      (deliver_users parcels (1 ∷ 2 ∷ []) waiting).1 (λ user_id changes t. (_, refl))
      (λ user_id t. (_, refl))
      (IsOnce.now (2 ∷ []) (IsAbsent.somebody 2 [] (λ e. omega arith) IsAbsent.nobody)) refl refl
      refl

-- An infested potato that ripens, and a carrot behind it.
abbrev sown : Fields
sown = record {
  crops =
      record {
        created_at = pos 0;
        row = record (growth 1 CropCurrentState.is_infested) {
          crop = Crops.potato;
          current_stage = pos 4;
        };
      }
      ∷ record { created_at = pos 1; row = growth 2 CropCurrentState.normal }
      ∷ [];
  chances = some System.crop_randomness;
  saved = [];
}

abbrev tick : Job
tick = record { batch = record { skip = 0; take = 2 }; time = pos 9000; utc_time = pos 9000 }

ripe_crop_stops_batch_example :
    (e : Exception) × (process_crops fields 50
        (λ i k. record { water = 0; pest = 0; kind = 0 })
        tick
        sown
      ≡ (err (transaction_failed e), sown))
unfolding ◌+ℤ◌ ◌-ℤ◌
ripe_crop_stops_batch_example =
    ripe_crop_stops_batch fields halves_refused 50 (λ i k. record { water = 0; pest = 0; kind = 0 })
      tick sown System.crop_randomness 0
      (record (growth 1 CropCurrentState.is_infested) {
        crop = Crops.potato;
        current_stage = pos 4;
      })
      refl refl
      (record {
        last = refl;
        spoiled = inl refl;
        over = omega arith;
        once = omega arith;
        odd = refl;
      })

abbrev slots : List SpinSlotEntity
slots = slots_from 1 (seeded_prizes spin_prizes)

abbrev fair : World memory
fair = record {
  state = record farm { spin_slots = slots; spin_info = System.spin_info };
  sent = [];
}

abbrev turned : World memory
turned = (perform memory (spin memory (pos 7) 100 97 0 1) fair).1

abbrev keys : ℕ → KeyPair
keys n = record { public_key = 50 + n; private_key = n }

-- The made-up account 2 signs the message 5, and names the account of the configuration.
abbrev made : VerifySignatureRequest
made = record {
  message = 5;
  public_key = 52;
  signature = 57;
  chain_key = some ChainKey.near;
  mainnet = false;
  account_address = some 70;
}

abbrev cached : Rows
cached = record known { cache = 5 ∷ 3 ∷ [] }

generated_logs_in_example :
    (tokens : Tokens) × (s : Rows) × (verify_signature accounts sums credentials made cached
      ≡ (ok tokens, s))
unfolding generate_signature cifarm_server_alternativ.Auth.chain_key_to_platform
    cifarm_server_alternativ.Auth.request_message cifarm_server_alternativ.Auth.user_of
generated_logs_in_example =
    generated_logs_in accounts sums credentials (λ platform n. keys n)
      (λ platform message private_key public_key. message + public_key) (λ key. key) (λ mainnet. 70)
      accounts_laws (λ session s. (record s { sessions = session ∷ s.sessions }, refl))
      (λ platform message n. ==_refl (message + (50 + n))) 5 (some 2) (some ChainKey.near) false
      known cached cached made 70 7 refl refl refl

abbrev socket : Socket
socket = record { id = 8; connected = true; user = none; observing = none; rooms = [] }

abbrev accepting : ℕ → Option ℕ
accepting token = some 1

-- The user 1 connects and visits the farms 2 and 3; a change of the farm 3 is heard.
visits_heard_example :
    (sync_placed_items (λ farm. farm ∷ []) 3 (handle_connection accepting (some 5) socket ∷ [])
      ≡ [])
    × ((after : Socket) × (visit_all (2 ∷ 3 ∷ []) (handle_connection accepting (some 5) socket)
          ≡ ok after)
        × (sync_placed_items (λ farm. farm ∷ []) 3 (after ∷ [])
            ≡ record { socket_id = 8; placed_items = 3 ∷ [] } ∷ [])
        × (process_sync_placed_items_every_second (λ farm. farm ∷ []) (after ∷ [])
            ≡ record { socket_id = 8; placed_items = 3 ∷ [] } ∷ []))
visits_heard_example = visits_heard (λ farm. farm ∷ []) accepting 5 1 socket 3 2 (3 ∷ []) refl refl
