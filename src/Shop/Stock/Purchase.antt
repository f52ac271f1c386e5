-- ===== src/Shop/Stock/Purchase.antt =====
-- What a purchase of seeds or supplies costs.
use cifarm_server_alternativ.Prelude.{
  ℕ, ◌≡◌, refl, some, List, [], ◌∷◌, ℤ, ◌*ℤ◌, arith, inl, inr, Option-cases, true,
}
use cifarm_server_alternativ.Result.{ok, Result-cases}
use cifarm_server_alternativ.Entities.{CropEntity, SupplyEntity, InventoryType}
use cifarm_server_alternativ.Database.{
  Database, DatabaseLaws, Statement, any_inventory, any_inventory_type, user_after,
  save_inventories,
}
use cifarm_server_alternativ.Service.{Plan, World, perform}
use cifarm_server_alternativ.Service.Atomic.{perform-Succeeds}
use cifarm_server_alternativ.Gameplay.Wallet
use cifarm_server_alternativ.Gameplay.Inventory
use cifarm_server_alternativ.Shop.Bought.{IsPurchase, Bought, Succeeds-IsPurchase}
use cifarm_server_alternativ.Shop.Stock.{buy_seeds, buy_supplies}

module _ (db : Database) (laws : DatabaseLaws db) (user_id item_id : ℕ) (quantity : ℤ) where
  buy_seeds-Bought :
      (s : db.State) (plan : Plan (Unit {0})) (statements : List Statement)
      → buy_seeds db user_id item_id quantity s ≡ ok plan
      → plan.statements ≡ ok statements
      → (crop : CropEntity) × (db.find_crop (some item_id) s ≡ some crop)
        × (crop.available_in_shop ≡ true)
        × Bought db user_id (crop.price *ℤ quantity) s statements
  unfolding buy_seeds user_after
  buy_seeds-Bought s plan statements h ran = elim (Option-cases (db.find_crop (some item_id) s)) [
    | inl missing ↦ absurd (ground arith)
    | inr (crop, crop_found) ↦ elim (Option-cases (db.find_user user_id s)) [
      | inl missing ↦ absurd (ground arith)
      | inr (user, user_found) ↦
          elim (Option-cases (
            db.find_inventory_type
              (record any_inventory_type { crop_id = some item_id; type = some InventoryType.seed })
              s)) [
                | inl missing ↦ absurd (ground arith)
                | inr (type, type_found) ↦
                    elim (Result-cases (
                      Inventory.add
                        (db.find_inventories
                          (record any_inventory {
                            user_id = some user_id;
                            inventory_type_id = some type.id;
                          })
                          s)
                        user_id type quantity)) [
                          | inl missing ↦ absurd (ground arith)
                          | inr (inventories, added) ↦
                              elim (Result-cases
                                (Wallet.subtract_golds user (crop.price *ℤ quantity))) [
                                  | inl missing ↦ absurd (ground arith)
                                  | inr (changes, payable) ↦ (
                                    crop,
                                    crop_found,
                                    ground arith,
                                    record {
                                      user = user;
                                      changes = changes;
                                      rest = save_inventories inventories ∷ [];
                                      user_found = user_found;
                                      enough = ground arith;
                                      payable = payable;
                                      written = ground arith;
                                      no_users = λ i u. refl;
                                    },
                                  )
                                ]
                        ]
              ]
    ]
  ]

  -- On a database that meets the laws, a call of `buy_seeds` that returns has taken the price of
  -- the crop times the quantity off the golds of the user, which stay at 0 or more, and no energy,
  -- experiences, level or tokens. The crop is available in the shop.
  pub buy_seeds-IsPurchase :
      (w w' : World db)
      → perform db (buy_seeds db user_id item_id quantity) w ≡ (ok tt, w')
      → (crop : CropEntity) × (db.find_crop (some item_id) w.state ≡ some crop)
        × (crop.available_in_shop ≡ true)
        × IsPurchase db user_id (crop.price *ℤ quantity) w.state w'.state
  buy_seeds-IsPurchase w w' h =
      let r = perform-Succeeds db (buy_seeds db user_id item_id quantity) w w' tt h in
      let f = buy_seeds-Bought w.state r.plan r.statements r.planned r.no_throw in
      (
        f.0,
        f.1,
        f.2,
        Succeeds-IsPurchase db laws (buy_seeds db user_id item_id quantity) w w' tt user_id
            (f.0.price *ℤ quantity) r f.3,
      )

  buy_supplies-Bought :
      (s : db.State) (plan : Plan (Unit {0})) (statements : List Statement)
      → buy_supplies db user_id item_id quantity s ≡ ok plan
      → plan.statements ≡ ok statements
      → (supply : SupplyEntity) × (db.find_supply item_id s ≡ some supply)
        × (supply.available_in_shop ≡ true)
        × Bought db user_id (supply.price *ℤ quantity) s statements
  unfolding buy_supplies user_after
  buy_supplies-Bought s plan statements h ran = elim (Option-cases (db.find_supply item_id s)) [
    | inl missing ↦ absurd (ground arith)
    | inr (supply, supply_found) ↦ elim (Option-cases (db.find_user user_id s)) [
      | inl missing ↦ absurd (ground arith)
      | inr (user, user_found) ↦
          elim (Option-cases
            (db.find_inventory_type (record any_inventory_type { supply_id = some item_id }) s)) [
              | inl missing ↦ absurd (ground arith)
              | inr (type, type_found) ↦
                  elim (Result-cases (
                    Inventory.add
                      (db.find_inventories
                        (record any_inventory { user_id = some user_id; supply_id = some item_id })
                        s)
                      user_id type quantity)) [
                        | inl missing ↦ absurd (ground arith)
                        | inr (inventories, added) ↦
                            elim (Result-cases
                              (Wallet.subtract_golds user (supply.price *ℤ quantity))) [
                                | inl missing ↦ absurd (ground arith)
                                | inr (changes, payable) ↦ (
                                  supply,
                                  supply_found,
                                  ground arith,
                                  record {
                                    user = user;
                                    changes = changes;
                                    rest = save_inventories inventories ∷ [];
                                    user_found = user_found;
                                    enough = ground arith;
                                    payable = payable;
                                    written = ground arith;
                                    no_users = λ i u. refl;
                                  },
                                )
                              ]
                      ]
            ]
    ]
  ]

  -- On a database that meets the laws, a call of `buy_supplies` that returns has taken the price of
  -- the supply times the quantity off the golds of the user, which stay at 0 or more, and no
  -- energy, experiences, level or tokens. The supply is available in the shop.
  pub buy_supplies-IsPurchase :
      (w w' : World db)
      → perform db (buy_supplies db user_id item_id quantity) w ≡ (ok tt, w')
      → (supply : SupplyEntity) × (db.find_supply item_id w.state ≡ some supply)
        × (supply.available_in_shop ≡ true)
        × IsPurchase db user_id (supply.price *ℤ quantity) w.state w'.state
  buy_supplies-IsPurchase w w' h =
      let r = perform-Succeeds db (buy_supplies db user_id item_id quantity) w w' tt h in
      let f = buy_supplies-Bought w.state r.plan r.statements r.planned r.no_throw in
      (
        f.0,
        f.1,
        f.2,
        Succeeds-IsPurchase db laws (buy_supplies db user_id item_id quantity) w w' tt user_id
            (f.0.price *ℤ quantity) r f.3,
      )
