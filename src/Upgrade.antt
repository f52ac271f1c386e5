-- ===== src/Upgrade.antt =====
-- `UpgradeBuildingService` (apps/gameplay-service/src/upgrade).
pub mod Step
use cifarm_server_alternativ.Prelude.{
  ℕ, suc, Bool, true, false, Option, none, some, List, [], ◌∷◌, ℤ, pos, leb_ℤ, eqb_ℤ, if◌then◌else◌,
}
use cifarm_server_alternativ.Result.{
  Result, ok, err, ◌>>=◌, ◌>>◌, throw_if, or_throw, grpc_not_found, grpc_failed_precondition,
}
use cifarm_server_alternativ.Entities.{UpgradeEntity}
use cifarm_server_alternativ.Database.{
  Database, with_building, Statement, update_user, save_building_info,
}
use cifarm_server_alternativ.Service.{Plan, Handler}
use cifarm_server_alternativ.Gameplay.Wallet

-- `Math.max` of the levels; `none` is -∞, of no level at all.
unfoldable pub max_upgrade_level : List UpgradeEntity → Option ℤ
max_upgrade_level [] = none
max_upgrade_level (upgrade ∷ rest) = elim (max_upgrade_level rest) [
  | none ↦ some upgrade.upgrade_level
  | some level ↦ some (if leb_ℤ upgrade.upgrade_level level then level else upgrade.upgrade_level)
]

abbrev is_level : Option ℤ → ℤ → Bool
is_level none level = false
is_level (some max_level) level = eqb_ℤ level max_level

-- `upgrades.find((upgrade) => upgrade.upgradeLevel === level)`
unfoldable pub find_upgrade : ℤ → List UpgradeEntity → Option UpgradeEntity
find_upgrade level [] = none
find_upgrade level (upgrade ∷ rest) =
    if eqb_ℤ upgrade.upgrade_level level then some upgrade else find_upgrade level rest

module _ (db : Database) where
  unfoldable pub upgrade_building : ℕ → ℕ → Handler db (Unit {0})
  upgrade_building user_id placed_item_building_id s = do
    placed_item ←
        or_throw
          (db.find_placed_item
            (record { id = placed_item_building_id; user_id = some user_id; type = none })
            with_building s)
          (grpc_not_found "Placed item not found")
    building_info ←
        or_throw placed_item.building_info (grpc_failed_precondition "Building info not found")
    let upgrades = building_info.building.upgrades
    throw_if (is_level (max_upgrade_level upgrades) (pos building_info.current_upgrade))
        (grpc_failed_precondition "Building already at max upgrade level")
    next_upgrade ←
        or_throw (find_upgrade (pos (suc building_info.current_upgrade)) upgrades)
          (grpc_failed_precondition "Next upgrade not found")
    user ← or_throw (db.find_user user_id s) (grpc_not_found "User not found")
    Wallet.check_sufficient_golds user.golds next_upgrade.upgrade_price
    let statements = (do
      golds_changed ← Wallet.subtract_golds user next_upgrade.upgrade_price
      ok (
          update_user user.id golds_changed
          ∷ save_building_info
              (record building_info { current_upgrade = suc building_info.current_upgrade })
          ∷ []))
    ok (record { statements = statements; messages = []; response = tt })
