-- ===== src/Care/Animals.antt =====
-- What it means to take care of an animal: the services that feed and cure one, on one's own farm or
-- a neighbor's.
use cifarm_server_alternativ.Prelude.{ℕ, ◌≡◌, ◌∙◌, ap, true, Option, some, List, arith}
use cifarm_server_alternativ.Result.{ok}
use cifarm_server_alternativ.Entities.{
  UserEntity, UserChanges, patch, AnimalInfoEntity, AnimalInfoChanges, patch_animal,
  AnimalCurrentState, animal_state_eq, Activities, ActivityInfo, PlacedItemEntity, PlacedItemType,
}
use cifarm_server_alternativ.Database.{
  Database, DatabaseLaws, PlacedItemWhere, with_animal, Statement, user_after, animal_after,
}
use cifarm_server_alternativ.Gameplay.Activity.{activity_changes}
use cifarm_server_alternativ.Gameplay.Activity.Paid.{IsPaid, activity_changes-IsPaid}

pub animal_state_eq→eq : (a b : AnimalCurrentState) → animal_state_eq a b ≡ true → a ≡ b
animal_state_eq→eq a b h = ground arith

-- A user with the id `user_id` has tended the animal `item_id` of the farm `farm_id`, which was in
-- the state `wanted`, between the states `s` and `s'`; its row has got the changes `cared`.
pub record Tends (db : Database) (wanted : AnimalCurrentState) (cared : AnimalInfoChanges)
    (activity : Activities → ActivityInfo) (user_id farm_id item_id : ℕ) (s s' : db.State)
    : Type 0 where
  pub item : PlacedItemEntity
  pub animal : AnimalInfoEntity
  pub value : Activities
  pub user : UserEntity
  pub user' : UserEntity
  pub item_named : item.id ≡ item_id
  pub item_owned : item.user_id ≡ farm_id
  pub housed : item.animal_info ≡ some animal
  pub animal_before : db.animal_row animal.id s ≡ some animal
  pub state_before : animal.current_state ≡ wanted
  pub animal_after : db.animal_row animal.id s' ≡ some (patch_animal cared animal)
  pub priced : db.find_activities s ≡ some value
  pub user_before : db.find_user user_id s ≡ some user
  pub user_after : db.find_user user_id s' ≡ some user'
  pub paid : IsPaid (activity value) user user'

-- What a service has found out and written when it goes through.
pub record Tended (db : Database) (wanted : AnimalCurrentState) (cared : AnimalInfoChanges)
    (activity : Activities → ActivityInfo) (user_id : ℕ) (where_ : PlacedItemWhere) (s : db.State)
    (statements : List Statement) : Type 0 where
  pub item : PlacedItemEntity
  pub animal : AnimalInfoEntity
  pub value : Activities
  pub user : UserEntity
  pub changes : UserChanges
  pub item_found : db.find_placed_item where_ with_animal s ≡ some item
  pub housed : item.animal_info ≡ some animal
  pub needed : animal.current_state ≡ wanted
  pub priced : db.find_activities s ≡ some value
  pub user_found : db.find_user user_id s ≡ some user
  pub payable : activity_changes user (activity value) ≡ ok changes
  pub user_written : user_after user.id statements user ≡ patch changes user
  pub animal_written : animal_after animal.id statements animal ≡ patch_animal cared animal

pub Tended-Tends :
    (db : Database) (laws : DatabaseLaws db) (wanted : AnimalCurrentState)
    (cared : AnimalInfoChanges) (activity : Activities → ActivityInfo) (user_id farm_id item_id : ℕ)
    (type : Option PlacedItemType) (s s' : db.State) (statements : List Statement)
    → Tended db wanted cared activity user_id
        (record { id = item_id; user_id = some farm_id; type = type })
        s
        statements
    → db.commit statements s ≡ ok s'
    → Tends db wanted cared activity user_id farm_id item_id s s'
Tended-Tends db laws wanted cared activity user_id farm_id item_id type s s' statements t
      committed =
    let uid = laws.found_user user_id s t.user t.user_found in
    let found = laws.found_placed_item _ with_animal s t.item t.item_found in
    let before = laws.animal_loaded _ with_animal s t.item t.animal t.item_found t.housed in
    record {
      item = t.item;
      animal = t.animal;
      value = t.value;
      user = t.user;
      user' = patch t.changes t.user;
      item_named = found.0;
      item_owned = found.1;
      housed = t.housed;
      animal_before = before;
      state_before = t.needed;
      animal_after =
          laws.commit_animal t.animal.id statements s s' t.animal committed before
          ∙ ap some t.animal_written;
      priced = t.priced;
      user_before = t.user_found;
      user_after =
          laws.commit_user user_id statements s s' t.user committed t.user_found
          ∙ rw (← uid) (ap some t.user_written);
      paid = activity_changes-IsPaid t.user (activity t.value) t.payable;
    }
