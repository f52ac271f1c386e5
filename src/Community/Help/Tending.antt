-- ===== src/Community/Help/Tending.antt =====
-- What a call that returns has done to a neighbor's animal, and the message that it has sent.
use cifarm_server_alternativ.Prelude.{
  ℕ, ◌≡◌, refl, some, List, [], ◌∷◌, ◌++◌, arith, inl, inr, Option-cases, ==_refl,
}
use cifarm_server_alternativ.Result.{ok, Result-cases}
use cifarm_server_alternativ.Entities.{AnimalCurrentState, PlacedItemType}
use cifarm_server_alternativ.Database.{
  Database, DatabaseLaws, Statement, user_after, animal_after, with_animal, update_user,
  update_animal_info,
}
use cifarm_server_alternativ.Service.{Plan, World, perform}
use cifarm_server_alternativ.Service.Atomic.{perform-Succeeds}
use cifarm_server_alternativ.Gameplay.Activity.{activity_changes}
use cifarm_server_alternativ.Care.Animals.{Tends, Tended, Tended-Tends, animal_state_eq→eq}
use cifarm_server_alternativ.Community.Help.{help_cure_animal, farm_changed}
use cifarm_server_alternativ.Farming.Animals.Tending.{cured}

module _ (db : Database) (user_id neighbor_user_id item_id : ℕ) where
  help_cure_animal-Tended :
      (s : db.State) (plan : Plan (Unit {0})) (statements : List Statement)
      → help_cure_animal db user_id neighbor_user_id item_id s ≡ ok plan
      → plan.statements ≡ ok statements
      → Tended db AnimalCurrentState.sick cured
          (λ value. value.help_cure_animal)
          user_id
          (record {
            id = item_id;
            user_id = some neighbor_user_id;
            type = (some PlacedItemType.animal);
          })
          s
          statements
  unfolding help_cure_animal user_after animal_after
  help_cure_animal-Tended s plan statements h ran =
      elim (Option-cases (
        db.find_placed_item
          (record {
            id = item_id;
            user_id = some neighbor_user_id;
            type = (some PlacedItemType.animal);
          })
          with_animal s)) [
            | inl missing ↦ absurd (ground arith)
            | inr (item, item_found) ↦ elim (Option-cases (item.animal_info)) [
              | inl missing ↦ absurd (ground arith)
              | inr (animal, housed) ↦ elim (Option-cases (db.find_activities s)) [
                | inl missing ↦ absurd (ground arith)
                | inr (value, priced) ↦ elim (Option-cases (db.find_user user_id s)) [
                  | inl missing ↦ absurd (ground arith)
                  | inr (user, user_found) ↦
                      elim (Result-cases (activity_changes user value.help_cure_animal)) [
                        | inl missing ↦ absurd (ground arith)
                        | inr (changes, payable) ↦
                            let written : statements
                                ≡ update_user user.id changes
                                  ∷ update_animal_info animal.id cured
                                  ∷ [] =
                              ground arith in
                            record {
                              item = item;
                              animal = animal;
                              value = value;
                              user = user;
                              changes = changes;
                              item_found = item_found;
                              housed = housed;
                              needed =
                                  animal_state_eq→eq animal.current_state AnimalCurrentState.sick
                                    (ground arith);
                              priced = priced;
                              user_found = user_found;
                              payable = payable;
                              user_written = rw (written, ==_refl user.id) refl;
                              animal_written = rw (written, ==_refl animal.id) refl;
                            }
                      ]
                ]
              ]
            ]
          ]

  help_cure_animal-sent :
      (s : db.State) (plan : Plan (Unit {0}))
      → help_cure_animal db user_id neighbor_user_id item_id s ≡ ok plan
      → plan.messages ≡ farm_changed neighbor_user_id ∷ []
  unfolding help_cure_animal
  help_cure_animal-sent s plan h =
      elim (Option-cases (
        db.find_placed_item
          (record {
            id = item_id;
            user_id = some neighbor_user_id;
            type = (some PlacedItemType.animal);
          })
          with_animal s)) [
            | inl missing ↦ absurd (ground arith)
            | inr (item, item_found) ↦ elim (Option-cases (item.animal_info)) [
              | inl missing ↦ absurd (ground arith)
              | inr (animal, housed) ↦ elim (Option-cases (db.find_activities s)) [
                | inl missing ↦ absurd (ground arith)
                | inr (value, priced) ↦ elim (Option-cases (db.find_user user_id s)) [
                  | inl missing ↦ absurd (ground arith)
                  | inr (user, user_found) ↦
                      elim (Result-cases (activity_changes user value.help_cure_animal)) [
                        | inl missing ↦ absurd (ground arith)
                        | inr (changes, payable) ↦ ground arith
                      ]
                ]
              ]
            ]
          ]

  -- On a database that meets the laws, a call of `help_cure_animal` that returns has found the item
  -- that is named on the farm of the neighbor with an animal that was sick; afterwards it is in the
  -- state Normal and the row is otherwise as it was, and the user has paid for the activity
  -- `helpCureAnimal` out of an energy that stays at 0 or more. Below the quota of the level its
  -- gain is added to the experiences; at the quota or above the level is one more and the
  -- experiences are less by the quota. It has sent one message, with the neighbor as `userId`.
  pub help_cure_animal-Tends :
      DatabaseLaws db
      → (w w' : World db)
      → perform db (help_cure_animal db user_id neighbor_user_id item_id) w ≡ (ok tt, w')
      → Tends db AnimalCurrentState.sick cured
          (λ value. value.help_cure_animal)
          user_id
          neighbor_user_id
          item_id
          w.state
          w'.state
        × (w'.sent ≡ w.sent ++ farm_changed neighbor_user_id ∷ [])
  help_cure_animal-Tends laws w w' h =
      let r =
        perform-Succeeds db (help_cure_animal db user_id neighbor_user_id item_id) w w' tt h in
      (
        Tended-Tends db laws AnimalCurrentState.sick cured (λ value. value.help_cure_animal) user_id
            neighbor_user_id item_id (some PlacedItemType.animal) w.state w'.state r.statements
            (help_cure_animal-Tended w.state r.plan r.statements r.planned r.no_throw) r.committed,
        rw (← help_cure_animal-sent w.state r.plan r.planned) r.messages,
      )
