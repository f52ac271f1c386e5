-- ===== src/Shop/Farm/Build.antt =====
-- What a building costs, and what an animal costs and needs.
use cifarm_server_alternativ.Prelude.{
  ℕ, ◌≡◌, refl, none, some, List, [], ◌∷◌, ℤ, pos, ◌+ℤ◌, ◌<ℤ◌, arith, inl, inr, Option-cases, true,
  get_elem?,
}
use cifarm_server_alternativ.Result.{ok, Result-cases}
use cifarm_server_alternativ.Entities.{
  AnimalEntity, BuildingEntity, BuildingInfoEntity, PlacedItemEntity, PlacedItemType, UpgradeEntity,
}
use cifarm_server_alternativ.Database.{
  Database, DatabaseLaws, Statement, user_after, with_building, insert_placed_item,
  save_building_info,
}
use cifarm_server_alternativ.Service.{Plan, World, perform}
use cifarm_server_alternativ.Service.Atomic.{perform-Succeeds}
use cifarm_server_alternativ.Gameplay.Wallet
use cifarm_server_alternativ.Shop.Bought.{IsPurchase, Bought, Succeeds-IsPurchase}
use cifarm_server_alternativ.Shop.Farm.{buy_animal, construct_building}

module _ (db : Database) (laws : DatabaseLaws db) (user_id building_id : ℕ) (x y : ℤ) where
  construct_building-Bought :
      (s : db.State) (plan : Plan (Unit {0})) (statements : List Statement)
      → construct_building db user_id building_id x y s ≡ ok plan
      → plan.statements ≡ ok statements
      → (building : BuildingEntity) × (db.find_building building_id s ≡ some building)
        × (building.available_in_shop ≡ true)
        × Bought db user_id (building.price) s statements
  unfolding construct_building user_after
  construct_building-Bought s plan statements h ran =
      elim (Option-cases (db.find_building building_id s)) [
        | inl missing ↦ absurd (ground arith)
        | inr (building, building_found) ↦ elim (Option-cases (db.find_user user_id s)) [
          | inl missing ↦ absurd (ground arith)
          | inr (user, user_found) ↦
              elim (Option-cases (db.find_placed_item_type_by_id building_id s)) [
                | inl missing ↦ absurd (ground arith)
                | inr (type_id, type_found) ↦
                    elim (Result-cases (Wallet.subtract_golds user building.price)) [
                      | inl missing ↦ absurd (ground arith)
                      | inr (changes, payable) ↦ (
                        building,
                        building_found,
                        ground arith,
                        record {
                          user = user;
                          changes = changes;
                          rest =
                              insert_placed_item (record {
                                user_id = user_id;
                                x = x;
                                y = y;
                                placed_item_type_id = type_id;
                                parent_id = none;
                                animal_id = none;
                                building_info = some (record {
                                  current_upgrade = 1;
                                  occupancy = pos 0;
                                  building_id = building.id;
                                });
                              })
                              ∷ [];
                          user_found = user_found;
                          enough = ground arith;
                          payable = payable;
                          written = ground arith;
                          no_users = λ i u. refl;
                        },
                      )
                    ]
              ]
        ]
      ]

  -- On a database that meets the laws, a call of `construct_building` that returns has taken the
  -- price of the building off the golds of the user, which stay at 0 or more, and no energy,
  -- experiences, level or tokens. The building is available in the shop.
  pub construct_building-IsPurchase :
      (w w' : World db)
      → perform db (construct_building db user_id building_id x y) w ≡ (ok tt, w')
      → (building : BuildingEntity) × (db.find_building building_id w.state ≡ some building)
        × (building.available_in_shop ≡ true)
        × IsPurchase db user_id (building.price) w.state w'.state
  construct_building-IsPurchase w w' h =
      let r = perform-Succeeds db (construct_building db user_id building_id x y) w w' tt h in
      let f = construct_building-Bought w.state r.plan r.statements r.planned r.no_throw in
      (
        f.0,
        f.1,
        f.2,
        Succeeds-IsPurchase db laws (construct_building db user_id building_id x y) w w' tt user_id
            (f.0.price) r f.3,
      )

module _ (db : Database) (laws : DatabaseLaws db) (user_id animal_id house_id : ℕ) (x y : ℤ) where
  -- The building has room at its level, as the service reads it.
  pub record HasRoom (s : db.State) : Type 0 where
    pub house : PlacedItemEntity
    pub info : BuildingInfoEntity
    pub upgrade : UpgradeEntity
    pub house_found :
        db.find_placed_item (record { id = house_id; user_id = none; type = none }) with_building s
        ≡ some house
    pub is_building : house.type ≡ PlacedItemType.building
    pub built : house.building_info ≡ some info
    pub upgrade_found : get_elem? info.building.upgrades info.current_upgrade ≡ some upgrade
    pub room : info.occupancy <ℤ upgrade.capacity

  buy_animal-Bought :
      (s : db.State) (plan : Plan (Unit {0})) (statements : List Statement)
      → buy_animal db user_id animal_id house_id x y s ≡ ok plan
      → plan.statements ≡ ok statements
      → (animal : AnimalEntity) × (db.find_animal animal_id s ≡ some animal)
        × (animal.available_in_shop ≡ true)
        × HasRoom s
        × Bought db user_id (animal.price) s statements
  unfolding buy_animal user_after
  buy_animal-Bought s plan statements h ran = elim (Option-cases (db.find_animal animal_id s)) [
    | inl missing ↦ absurd (ground arith)
    | inr (animal, animal_found) ↦
        elim (Option-cases (
          db.find_placed_item (record { id = house_id; user_id = none; type = none }) with_building
            s)) [
              | inl missing ↦ absurd (ground arith)
              | inr (house, house_found) ↦ elim (Option-cases (house.building_info)) [
                | inl missing ↦ absurd (ground arith)
                | inr (info, built) ↦
                    elim (Option-cases
                      (db.find_placed_item_type PlacedItemType.animal animal_id s)) [
                        | inl missing ↦ absurd (ground arith)
                        | inr (type_id, type_found) ↦ elim (Option-cases (db.find_user user_id s)) [
                          | inl missing ↦ absurd (ground arith)
                          | inr (user, user_found) ↦
                              elim (Option-cases
                                (get_elem? info.building.upgrades info.current_upgrade)) [
                                  | inl missing ↦ absurd (ground arith)
                                  | inr (upgrade, upgrade_found) ↦
                                      elim (Result-cases
                                        (Wallet.subtract_golds user animal.price)) [
                                          | inl missing ↦ absurd (ground arith)
                                          | inr (changes, payable) ↦ (
                                            animal,
                                            animal_found,
                                            ground arith,
                                            record {
                                              house = house;
                                              info = info;
                                              upgrade = upgrade;
                                              house_found = house_found;
                                              is_building = ground arith;
                                              built = built;
                                              upgrade_found = upgrade_found;
                                              room = ground arith;
                                            },
                                            record {
                                              user = user;
                                              changes = changes;
                                              rest =
                                                  insert_placed_item (record {
                                                    user_id = user_id;
                                                    x = x;
                                                    y = y;
                                                    placed_item_type_id = type_id;
                                                    parent_id = some house.id;
                                                    animal_id = some animal_id;
                                                    building_info = none;
                                                  })
                                                  ∷ save_building_info (record info {
                                                    occupancy = info.occupancy +ℤ pos 1;
                                                  })
                                                  ∷ [];
                                              user_found = user_found;
                                              enough = ground arith;
                                              payable = payable;
                                              written = ground arith;
                                              no_users = λ i u. refl;
                                            },
                                          )
                                        ]
                                ]
                        ]
                      ]
              ]
            ]
  ]

  -- On a database that meets the laws, a call of `buy_animal` that returns has taken the price of
  -- the animal off the golds of the user, which stay at 0 or more, and no energy, experiences,
  -- level or tokens. The animal is available in the shop, and the placed item is a building whose
  -- occupancy was below the capacity of the upgrade at the index `currentUpgrade`.
  pub buy_animal-IsPurchase :
      (w w' : World db)
      → perform db (buy_animal db user_id animal_id house_id x y) w ≡ (ok tt, w')
      → (animal : AnimalEntity) × (db.find_animal animal_id w.state ≡ some animal)
        × (animal.available_in_shop ≡ true)
        × HasRoom w.state
        × IsPurchase db user_id (animal.price) w.state w'.state
  buy_animal-IsPurchase w w' h =
      let r = perform-Succeeds db (buy_animal db user_id animal_id house_id x y) w w' tt h in
      let f = buy_animal-Bought w.state r.plan r.statements r.planned r.no_throw in
      (
        f.0,
        f.1,
        f.2,
        f.3,
        Succeeds-IsPurchase db laws (buy_animal db user_id animal_id house_id x y) w w' tt user_id
            (f.0.price) r f.4,
      )
