-- ===== src/Farming/Harvest.antt =====
-- Two services that never succeed: their first guard has lost a negation, so a planted tile and a
-- housed animal are refused, and the others lead to the read of a missing row.
use cifarm_server_alternativ.Prelude.{ℕ, ◌≡◌, ◌⊎◌, inl, inr, none, some, arith, Option-cases}
use cifarm_server_alternativ.Result.{
  Exception, err, type_error, grpc_not_found, grpc_failed_precondition,
}
use cifarm_server_alternativ.Database.{Database, with_crop, with_animal}
use cifarm_server_alternativ.Service.{World, perform}
use cifarm_server_alternativ.Farming.Seeds.{harvest_crop}
use cifarm_server_alternativ.Farming.Animals.{collect_animal_product}

module _ (db : Database) (user_id placed_item_id : ℕ) (w : World db) where
  -- `harvest_crop` throws on every database, user, tile and state, and changes nothing: it does not
  -- find the tile, refuses a planted tile as not planted, or reads the row of a crop that is
  -- missing.
  pub harvest_crop_never_returns :
      (e : Exception) × (perform db (harvest_crop db user_id placed_item_id) w ≡ (err e, w))
      × ((e ≡ grpc_not_found "Tile not found")
          ⊎ ((e ≡ grpc_failed_precondition "Tile is not planted") ⊎ (e ≡ type_error)))
  unfolding harvest_crop perform
  harvest_crop_never_returns =
      elim (Option-cases (
        db.find_placed_item (record { id = placed_item_id; user_id = none; type = none }) with_crop
          w.state)) [
            | inl missing ↦ (grpc_not_found "Tile not found", ground arith, ground arith)
            | inr (tile, found) ↦ elim (Option-cases tile.seed_growth_info) [
              | inl bare ↦ (type_error, ground arith, ground arith)
              | inr (crop, planted) ↦
                  (grpc_failed_precondition "Tile is not planted", ground arith, ground arith)
            ]
          ]

  -- `collect_animal_product` throws on every database, user, animal and state, and changes nothing:
  -- it answers that the animal is not found, or reads the row of an animal that is missing.
  pub collect_animal_product_never_returns :
      (e : Exception) × (perform db (collect_animal_product db user_id placed_item_id) w
        ≡ (err e, w))
      × ((e ≡ grpc_not_found "Animal not found") ⊎ (e ≡ type_error))
  unfolding collect_animal_product perform
  collect_animal_product_never_returns =
      elim (Option-cases (
        db.find_placed_item (record { id = placed_item_id; user_id = some user_id; type = none })
          with_animal w.state)) [
            | inl missing ↦ (grpc_not_found "Animal not found", ground arith, ground arith)
            | inr (item, found) ↦ elim (Option-cases item.animal_info) [
              | inl bare ↦ (type_error, ground arith, ground arith)
              | inr (animal, housed) ↦
                  (grpc_not_found "Animal not found", ground arith, ground arith)
            ]
          ]

  -- `harvest_crop` and `collect_animal_product` throw on every database, user, item and state, and
  -- change nothing.
  pub nothing_is_harvested :
      ((e : Exception) × (perform db (harvest_crop db user_id placed_item_id) w ≡ (err e, w)))
      × ((e : Exception) × (perform db (collect_animal_product db user_id placed_item_id) w
            ≡ (err e, w)))
  nothing_is_harvested = (
    (harvest_crop_never_returns.0, harvest_crop_never_returns.1),
    (collect_animal_product_never_returns.0, collect_animal_product_never_returns.1),
  )
