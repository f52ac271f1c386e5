-- ===== src/Player/Animals.antt =====
-- The three services that take care of an animal: two on the user's own farm
-- (apps/gameplay-service/src/farming) and one on a neighbor's (apps/gameplay-service/src/community).
use cifarm_server_alternativ.Prelude.{ℕ}
use cifarm_server_alternativ.Entities.{
  AnimalCurrentState, AnimalInfoChanges, Activities, ActivityInfo,
}
use cifarm_server_alternativ.Database.{Database}
use cifarm_server_alternativ.Service.{Handler}
use cifarm_server_alternativ.Farming.Animals
use cifarm_server_alternativ.Farming.Animals.Tending.{fed, cured}
use cifarm_server_alternativ.Community.Help
use cifarm_server_alternativ.Community.Help.{farm_changed}

pub data AnimalCare : Type 0 where
  feed_animal cure_animal help_cure_animal : AnimalCare

abbrev pub wanted_animal : AnimalCare → AnimalCurrentState
wanted_animal feed_animal = AnimalCurrentState.hungry
wanted_animal _ = AnimalCurrentState.sick

-- What the care changes in the row of the animal.
abbrev pub cared : AnimalCare → AnimalInfoChanges
cared feed_animal = fed
cared _ = cured

abbrev pub animal_activity : AnimalCare → Activities → ActivityInfo
animal_activity feed_animal value = value.feed_animal
animal_activity cure_animal value = value.cure_animal
animal_activity help_cure_animal value = value.help_cure_animal

abbrev pub animal_farm : AnimalCare → (user_id neighbor_user_id : ℕ) → ℕ
animal_farm help_cure_animal user_id neighbor_user_id = neighbor_user_id
animal_farm _ user_id neighbor_user_id = user_id

module _ (db : Database) (animal_feed user_id neighbor_user_id item_id : ℕ) where
  abbrev pub animal_care : AnimalCare → Handler db (Unit {0})
  animal_care feed_animal = Animals.feed_animal db animal_feed user_id item_id
  animal_care cure_animal = Animals.cure_animal db user_id item_id
  animal_care help_cure_animal = Help.help_cure_animal db user_id neighbor_user_id item_id
