-- ===== src/Upgrade/Step.antt =====
-- What an upgrade of a building costs, and which level it leads to.
use cifarm_server_alternativ.Prelude.{
  ℕ, suc, ◌≡◌, ◌≢◌, refl, none, some, List, [], ◌∷◌, ℤ, pos, ◌<ℤ◌, arith, inl, inr, Option-cases,
  leb_ℤ, eqb_ℤ, Bool-cases,
}
use cifarm_server_alternativ.Result.{ok, Result-cases}
use cifarm_server_alternativ.Entities.{BuildingInfoEntity, PlacedItemEntity, UpgradeEntity}
use cifarm_server_alternativ.Database.{
  Database, DatabaseLaws, Statement, user_after, with_building, save_building_info,
}
use cifarm_server_alternativ.Service.{Plan, World, perform}
use cifarm_server_alternativ.Service.Atomic.{perform-Succeeds}
use cifarm_server_alternativ.Gameplay.Wallet
use cifarm_server_alternativ.Shop.Bought.{IsPurchase, Bought, Succeeds-IsPurchase}
use cifarm_server_alternativ.Upgrade.{max_upgrade_level, find_upgrade, upgrade_building}

pub find_upgrade_level :
    (level : ℤ) (upgrades : List UpgradeEntity) {upgrade : UpgradeEntity}
    → find_upgrade level upgrades ≡ some upgrade
    → upgrade.upgrade_level ≡ level
unfolding find_upgrade
find_upgrade_level level [] h = absurd (ground arith)
find_upgrade_level level (first ∷ rest) {upgrade} h =
    elim (Bool-cases (eqb_ℤ first.upgrade_level level)) [
      | inl here ↦ ground arith
      | inr later ↦ find_upgrade_level level rest {upgrade = upgrade} (ground arith)
    ]

no_levels :
    (level : ℤ) (upgrades : List UpgradeEntity)
    → max_upgrade_level upgrades ≡ none
    → find_upgrade level upgrades ≡ none
unfolding find_upgrade max_upgrade_level
no_levels level [] h = refl
no_levels level (first ∷ rest) h = elim (Option-cases (max_upgrade_level rest)) [
  | inl last ↦ absurd (ground arith)
  | inr (m, more) ↦ absurd (ground arith)
]

-- No upgrade is found for a level above the greatest one.
pub find_upgrade_above_max :
    (level max_level : ℤ) (upgrades : List UpgradeEntity)
    → max_upgrade_level upgrades ≡ some max_level
    → max_level <ℤ level
    → find_upgrade level upgrades ≡ none
unfolding find_upgrade max_upgrade_level
find_upgrade_above_max level max_level [] top above = refl
find_upgrade_above_max level max_level (first ∷ rest) top above =
    elim (Option-cases (max_upgrade_level rest)) [
      | inl last ↦ let later = no_levels level rest last in ground arith
      | inr (m, more) ↦ elim (Bool-cases (leb_ℤ first.upgrade_level m)) [
        | inl lower ↦
            let later = find_upgrade_above_max level m rest more (ground arith) in ground arith
        | inr higher ↦
            let later = find_upgrade_above_max level m rest more (ground arith) in ground arith
      ]
    ]

module _ (db : Database) (laws : DatabaseLaws db) (user_id building_id : ℕ) where
  -- The building is the user's, and the upgrade is the one to the next level.
  pub record IsNextLevel (s : db.State) (info : BuildingInfoEntity) (upgrade : UpgradeEntity)
      : Type 0 where
    pub placed : PlacedItemEntity
    pub named : placed.id ≡ building_id
    pub owned : placed.user_id ≡ user_id
    pub built : placed.building_info ≡ some info
    pub found : find_upgrade (pos (suc info.current_upgrade)) info.building.upgrades ≡ some upgrade
    pub level : upgrade.upgrade_level ≡ pos (suc info.current_upgrade)
    pub not_top : max_upgrade_level info.building.upgrades ≢ some (pos info.current_upgrade)

  upgrade_building-Bought :
      (s : db.State) (plan : Plan (Unit {0})) (statements : List Statement)
      → upgrade_building db user_id building_id s ≡ ok plan
      → plan.statements ≡ ok statements
      → (info : BuildingInfoEntity) × (upgrade : UpgradeEntity) × IsNextLevel s info upgrade
        × Bought db user_id (upgrade.upgrade_price) s statements
  unfolding upgrade_building user_after
  upgrade_building-Bought s plan statements h ran =
      elim (Option-cases (
        db.find_placed_item (record { id = building_id; user_id = some user_id; type = none })
          with_building s)) [
            | inl missing ↦ absurd (ground arith)
            | inr (placed, placed_found) ↦ elim (Option-cases (placed.building_info)) [
              | inl missing ↦ absurd (ground arith)
              | inr (info, built) ↦
                  elim (Option-cases
                    (find_upgrade (pos (suc info.current_upgrade)) info.building.upgrades)) [
                      | inl missing ↦ absurd (ground arith)
                      | inr (upgrade, upgrade_found) ↦
                          elim (Option-cases (db.find_user user_id s)) [
                            | inl missing ↦ absurd (ground arith)
                            | inr (user, user_found) ↦
                                elim (Result-cases
                                  (Wallet.subtract_golds user upgrade.upgrade_price)) [
                                    | inl missing ↦ absurd (ground arith)
                                    | inr (changes, payable) ↦ (
                                      info,
                                      upgrade,
                                      record {
                                        placed = placed;
                                        named =
                                            (laws.found_placed_item _ _ s placed placed_found).0;
                                        owned =
                                            (laws.found_placed_item _ _ s placed placed_found).1;
                                        built = built;
                                        found = upgrade_found;
                                        level =
                                            find_upgrade_level (pos (suc info.current_upgrade))
                                              info.building.upgrades upgrade_found;
                                        not_top = λ e. absurd (ground arith);
                                      },
                                      record {
                                        user = user;
                                        changes = changes;
                                        rest =
                                            save_building_info (record info {
                                              current_upgrade = suc info.current_upgrade;
                                            })
                                            ∷ [];
                                        user_found = user_found;
                                        enough = ground arith;
                                        payable = payable;
                                        written = ground arith;
                                        no_users = λ i u. refl;
                                      },
                                    )
                                  ]
                          ]
                    ]
            ]
          ]

  -- On a database that meets the laws, a call of `upgrade_building` that returns has taken the
  -- price of an upgrade off the golds of the user, which stay at 0 or more, and no energy,
  -- experiences, level or tokens. The upgrade is the one that is found for the level after the
  -- current one and has that level, the building is on the placed item that is named, which is the
  -- user's, and its level was not the greatest.
  pub upgrade_building-IsPurchase :
      (w w' : World db)
      → perform db (upgrade_building db user_id building_id) w ≡ (ok tt, w')
      → (info : BuildingInfoEntity) × (upgrade : UpgradeEntity) × IsNextLevel w.state info upgrade
        × IsPurchase db user_id (upgrade.upgrade_price) w.state w'.state
  upgrade_building-IsPurchase w w' h =
      let r = perform-Succeeds db (upgrade_building db user_id building_id) w w' tt h in
      let f = upgrade_building-Bought w.state r.plan r.statements r.planned r.no_throw in
      (
        f.0,
        f.1,
        f.2,
        Succeeds-IsPurchase db laws (upgrade_building db user_id building_id) w w' tt user_id
            (f.1.upgrade_price) r f.3,
      )
