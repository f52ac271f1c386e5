-- ===== src/Farming/Animals/Tending.antt =====
-- What a call that returns has done to the animal that it feeds or cures.
use cifarm_server_alternativ.Prelude.{
  ℕ, ◌≡◌, refl, none, some, List, [], ◌∷◌, pos, ◌-ℤ◌, arith, inl, inr, Option-cases, ==_refl,
}
use cifarm_server_alternativ.Result.{ok, Result-cases}
use cifarm_server_alternativ.Entities.{
  AnimalCurrentState, InventoryType, AnimalInfoChanges, no_animal_changes, spread,
}
use cifarm_server_alternativ.Database.{
  Database, DatabaseLaws, Statement, user_after, animal_after, with_animal, any_inventory,
  update_user, update_animal_info, update_inventory,
}
use cifarm_server_alternativ.Service.{Plan, World, perform}
use cifarm_server_alternativ.Service.Atomic.{perform-Succeeds}
use cifarm_server_alternativ.Gameplay.Activity.{activity_changes}
use cifarm_server_alternativ.Gameplay.Energy
use cifarm_server_alternativ.Gameplay.Level
use cifarm_server_alternativ.Care.Animals.{Tends, Tended, Tended-Tends, animal_state_eq→eq}
use cifarm_server_alternativ.Farming.Animals.{cure_animal, feed_animal}

abbrev pub cured : AnimalInfoChanges
cured = record no_animal_changes { current_state = some AnimalCurrentState.normal }

abbrev pub fed : AnimalInfoChanges
fed = record no_animal_changes {
  current_state = some AnimalCurrentState.normal;
  current_hungry_time = some (pos 0);
}

module _ (db : Database) (user_id item_id : ℕ) where
  cure_animal-Tended :
      (s : db.State) (plan : Plan (Unit {0})) (statements : List Statement)
      → cure_animal db user_id item_id s ≡ ok plan
      → plan.statements ≡ ok statements
      → Tended db AnimalCurrentState.sick cured
          (λ value. value.cure_animal)
          user_id
          (record { id = item_id; user_id = some user_id; type = none })
          s
          statements
  unfolding cure_animal user_after animal_after activity_changes
  cure_animal-Tended s plan statements h ran =
      elim (Option-cases (
        db.find_placed_item (record { id = item_id; user_id = some user_id; type = none })
          with_animal s)) [
            | inl missing ↦ absurd (ground arith)
            | inr (item, item_found) ↦ elim (Option-cases (item.animal_info)) [
              | inl missing ↦ absurd (ground arith)
              | inr (animal, housed) ↦ elim (Option-cases (db.find_activities s)) [
                | inl missing ↦ absurd (ground arith)
                | inr (value, priced) ↦ elim (Option-cases (db.find_user user_id s)) [
                  | inl missing ↦ absurd (ground arith)
                  | inr (user, user_found) ↦
                      elim (Result-cases (Energy.substract user value.cure_animal.energy_consume)) [
                        | inl missing ↦ absurd (ground arith)
                        | inr (energy_changes, drained) ↦
                            elim (Result-cases
                              (Level.add_experiences user value.cure_animal.experiences_gain)) [
                                | inl missing ↦ absurd (ground arith)
                                | inr (experiences_changes, gained) ↦
                                    let written : statements
                                        ≡ update_animal_info animal.id cured
                                          ∷ update_user user.id
                                              (spread energy_changes experiences_changes)
                                          ∷ [] =
                                      ground arith in
                                    record {
                                      item = item;
                                      animal = animal;
                                      value = value;
                                      user = user;
                                      changes = spread energy_changes experiences_changes;
                                      item_found = item_found;
                                      housed = housed;
                                      needed =
                                          animal_state_eq→eq animal.current_state
                                            AnimalCurrentState.sick (ground arith);
                                      priced = priced;
                                      user_found = user_found;
                                      payable = ground arith;
                                      user_written = rw (written, ==_refl user.id) refl;
                                      animal_written = rw (written, ==_refl animal.id) refl;
                                    }
                              ]
                      ]
                ]
              ]
            ]
          ]

  -- On a database that meets the laws, a call of `cure_animal` that returns has found the item that
  -- is named on the farm of the user with an animal that was sick; afterwards it is in the state
  -- Normal and the row is otherwise as it was, and the user has paid for the activity `cureAnimal`
  -- out of an energy that stays at 0 or more. Below the quota of the level its gain is added to the
  -- experiences; at the quota or above the level is one more and the experiences are less by the
  -- quota.
  pub cure_animal-Tends :
      DatabaseLaws db
      → (w w' : World db) → perform db (cure_animal db user_id item_id) w ≡ (ok tt, w')
      → Tends db AnimalCurrentState.sick cured
          (λ value. value.cure_animal)
          user_id
          user_id
          item_id
          w.state
          w'.state
  cure_animal-Tends laws w w' h =
      let r = perform-Succeeds db (cure_animal db user_id item_id) w w' tt h in
      Tended-Tends db laws AnimalCurrentState.sick cured (λ value. value.cure_animal) user_id
        user_id item_id none w.state w'.state r.statements
        (cure_animal-Tended w.state r.plan r.statements r.planned r.no_throw) r.committed

module _ (db : Database) (animal_feed user_id item_id : ℕ) where
  feed_animal-Tended :
      (s : db.State) (plan : Plan (Unit {0})) (statements : List Statement)
      → feed_animal db animal_feed user_id item_id s ≡ ok plan
      → plan.statements ≡ ok statements
      → Tended db AnimalCurrentState.hungry fed
          (λ value. value.feed_animal)
          user_id
          (record { id = item_id; user_id = some user_id; type = none })
          s
          statements
  unfolding feed_animal user_after animal_after
  feed_animal-Tended s plan statements h ran =
      elim (Option-cases (
        db.find_placed_item (record { id = item_id; user_id = some user_id; type = none })
          with_animal s)) [
            | inl missing ↦ absurd (ground arith)
            | inr (item, item_found) ↦ elim (Option-cases (item.animal_info)) [
              | inl missing ↦ absurd (ground arith)
              | inr (animal, housed) ↦ elim (Option-cases (db.find_activities s)) [
                | inl missing ↦ absurd (ground arith)
                | inr (value, priced) ↦ elim (Option-cases (db.find_user user_id s)) [
                  | inl missing ↦ absurd (ground arith)
                  | inr (user, user_found) ↦
                      elim (Result-cases (activity_changes user value.feed_animal)) [
                        | inl missing ↦ absurd (ground arith)
                        | inr (changes, payable) ↦
                            elim (Option-cases (
                              db.find_inventory
                                (record any_inventory {
                                  user_id = some user.id;
                                  type = some InventoryType.supply;
                                  supply_id = some animal_feed;
                                })
                                s)) [
                                  | inl missing ↦ absurd (ground arith)
                                  | inr (inventory, stocked) ↦
                                      elim (Option-cases (inventory.inventory_type)) [
                                        | inl missing ↦ absurd (ground arith)
                                        | inr (type, typed) ↦
                                            let written : statements
                                                ≡ update_inventory inventory.id
                                                    (inventory.quantity -ℤ pos 1)
                                                  ∷ update_user user.id changes
                                                  ∷ update_animal_info animal.id fed
                                                  ∷ [] =
                                              ground arith in
                                            record {
                                              item = item;
                                              animal = animal;
                                              value = value;
                                              user = user;
                                              changes = changes;
                                              item_found = item_found;
                                              housed = housed;
                                              needed =
                                                  animal_state_eq→eq animal.current_state
                                                    AnimalCurrentState.hungry (ground arith);
                                              priced = priced;
                                              user_found = user_found;
                                              payable = payable;
                                              user_written = rw (written, ==_refl user.id) refl;
                                              animal_written = rw (written, ==_refl animal.id) refl;
                                            }
                                      ]
                                ]
                      ]
                ]
              ]
            ]
          ]

  -- On a database that meets the laws, a call of `feed_animal` that returns has found the item that
  -- is named on the farm of the user with an animal that was hungry; afterwards it is in the state
  -- Normal with a hungry time of 0 and the row is otherwise as it was, and the user has paid for
  -- the activity `feedAnimal` out of an energy that stays at 0 or more. Below the quota of the
  -- level its gain is added to the experiences; at the quota or above the level is one more and the
  -- experiences are less by the quota.
  pub feed_animal-Tends :
      DatabaseLaws db
      → (w w' : World db) → perform db (feed_animal db animal_feed user_id item_id) w ≡ (ok tt, w')
      → Tends db AnimalCurrentState.hungry fed
          (λ value. value.feed_animal)
          user_id
          user_id
          item_id
          w.state
          w'.state
  feed_animal-Tends laws w w' h =
      let r = perform-Succeeds db (feed_animal db animal_feed user_id item_id) w w' tt h in
      Tended-Tends db laws AnimalCurrentState.hungry fed (λ value. value.feed_animal) user_id
        user_id item_id none w.state w'.state r.statements
        (feed_animal-Tended w.state r.plan r.statements r.planned r.no_throw) r.committed
