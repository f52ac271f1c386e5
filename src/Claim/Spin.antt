-- ===== src/Claim/Spin.antt =====
-- `SpinService` (apps/gameplay-service/src/claim/spin/spin.service.ts). The two numbers that
-- `Math.random` returns stand over one denominator, that of the thresholds; times are in
-- milliseconds.
pub mod Chance
pub mod Turn
pub mod Twice
use cifarm_server_alternativ.Prelude.{
  ℕ, ◌*◌, ◌/◌, Bool, true, false, ◌&&◌, not, Option, none, some, List, [], ◌∷◌, ℤ, pos, ◌+ℤ◌, ◌-ℤ◌,
  ltb_ℤ, ltb, leb, length, get_elem?, ◌==◌, if◌then◌else◌,
}
use cifarm_server_alternativ.Result.{
  Result, ok, err, ◌>>=◌, ◌>>◌, throw_if, deref, grpc_permission_denied, grpc_internal,
}
use cifarm_server_alternativ.Entities.{
  UserEntity, UserChanges, no_changes, spread, AppearanceChance, appearance_chance_eq,
  SpinPrizeType, SpinPrizeEntity, SpinSlotEntity, SlotInfo, InventoryType,
}
use cifarm_server_alternativ.Database.{
  Database, Statement, update_user, save_inventories, any_inventory, any_inventory_type,
}
use cifarm_server_alternativ.Service.{Plan, Handler}
use cifarm_server_alternativ.Gameplay.Wallet
use cifarm_server_alternativ.Gameplay.Inventory
use cifarm_server_alternativ.Claim.{amount_of}

abbrev pub day : ℤ
day = pos 86400000

-- `user.spinLastTime && now.diff(user.spinLastTime, "day") < 1`
abbrev pub has_spun_today : ℤ → Option ℤ → Bool
has_spun_today now none = false
has_spun_today now (some time) = ltb_ℤ (now -ℤ time) day

-- The test of the loop over the chances.
abbrev pub hits : ℕ → SlotInfo → Bool
hits random info = leb info.threshold_min random && ltb random info.threshold_max

-- The loop: its `break` is not part of the `if`.
unfoldable pub chance_of : ℕ → List (AppearanceChance × SlotInfo) → AppearanceChance
chance_of random [] = AppearanceChance.common
chance_of random ((key, info) ∷ rest) = if hits random info then key else AppearanceChance.common

unfoldable pub rewardable_slots : AppearanceChance → List SpinSlotEntity → List SpinSlotEntity
rewardable_slots chance [] = []
rewardable_slots chance (slot ∷ rest) =
    let others = rewardable_slots chance rest in
    if appearance_chance_eq slot.spin_prize.appearance_chance chance then slot ∷ others else others

-- `Math.floor(Math.random() * rewardableSlots.length)`
unfoldable pub random_index : (second denominator : ℕ) → List SpinSlotEntity → ℕ
random_index second denominator slots = second * length slots / denominator

abbrev pub spin_changes : ℤ → UserEntity → UserChanges
spin_changes now user = record no_changes {
  spin_last_time = some now;
  spin_count = some (user.spin_count +ℤ pos 1);
}

module _ (db : Database) where
  -- The cases `Seed` and `Supply`, which differ in the type that they look up.
  unfoldable pub inventory_prize :
      InventoryType → ℤ → ℕ → UserEntity → SpinPrizeEntity → db.State → Result (List Statement)
  inventory_prize type now user_id user prize s = do
    inventory_type ← deref (
        db.find_inventory_type
          (record any_inventory_type { crop_id = prize.crop_id; type = some type }) s)
    let inventories =
        db.find_inventories
          (record any_inventory {
            user_id = some user_id;
            inventory_type_id = some inventory_type.id;
          })
          s
    updated ← Inventory.add inventories user_id inventory_type (amount_of prize.quantity)
    ok (update_user user.id (spin_changes now user) ∷ save_inventories updated ∷ [])

  -- The `switch` on the type of the prize, up to its transactions.
  unfoldable pub prize_statements :
      ℤ → ℕ → UserEntity → SpinPrizeEntity → db.State → Result (List Statement)
  unfolding inventory_prize
  prize_statements now user_id user prize s = elim prize.type [
    | SpinPrizeType.gold ↦ Wallet.add_golds user (amount_of prize.golds) >>= λ balance.
        ok (update_user user.id (spread (spin_changes now user) balance) ∷ [])
    | SpinPrizeType.seed ↦ inventory_prize InventoryType.seed now user_id user prize s
    | SpinPrizeType.supply ↦ inventory_prize InventoryType.supply now user_id user prize s
    | SpinPrizeType.token ↦ Wallet.add_tokens user (amount_of prize.tokens) >>= λ balance.
        ok (update_user user.id (spread (spin_changes now user) balance) ∷ [])
  ]

  -- It responds with the id of the slot.
  unfoldable pub spin : ℤ → (denominator random second : ℕ) → ℕ → Handler db ℕ
  unfolding chance_of rewardable_slots random_index prize_statements
  spin now denominator random second user_id s = do
    user ← deref (db.find_user user_id s)
    throw_if (has_spun_today now user.spin_last_time)
        (grpc_permission_denied "Spin is blocked for 24 hours")
    let spin_slots = db.find_spin_slots s
    throw_if (not (length spin_slots == 8)) (grpc_internal "Spin slots must be equal to 8")
    info ← deref (db.find_spin_info s)
    let slots = rewardable_slots (chance_of random info.appearance_chance_slots) spin_slots
    selected_slot ← deref (get_elem? slots (random_index second denominator slots))
    statements ← prize_statements now user_id user selected_slot.spin_prize s
    ok (record { statements = ok statements; messages = []; response = selected_slot.id })
