-- ===== src/Tests/Crops.antt =====
-- The care of crops and the theft of a harvest, on the two farms.
use cifarm_server_alternativ.Prelude.{true, ◌∷◌, ◌≡◌, [], pos}
use cifarm_server_alternativ.Result.{Exception, err}
use cifarm_server_alternativ.Service.{World, perform}
use cifarm_server_alternativ.Farming.Seeds.{harvest_crop}
use cifarm_server_alternativ.Farming.Animals.{collect_animal_product}
use cifarm_server_alternativ.Community.Help.{neighbor_changed}
use cifarm_server_alternativ.Gameplay.Energy
use cifarm_server_alternativ.Gameplay.Level
use cifarm_server_alternativ.Gameplay.Inventory
use cifarm_server_alternativ.Gameplay.Thief
use cifarm_server_alternativ.Tests.Memory.{memory}
use cifarm_server_alternativ.Tests.Sample.{farm, start}
use cifarm_server_alternativ.Farming.Harvest.{nothing_is_harvested}
use cifarm_server_alternativ.Community.Help

nothing_is_harvested_example :
    ((e : Exception) × (perform memory (harvest_crop memory 1 4) start ≡ (err e, start)))
    × ((e : Exception) × (perform memory (collect_animal_product memory 1 4) start
          ≡ (err e, start)))
nothing_is_harvested_example = nothing_is_harvested memory 1 4 start

-- The supply 3, of which there are four pieces, as a fertilizer.
abbrev stocked : World memory
stocked = record {
  state = record farm {
    supplies =
        record {
          id = 3;
          price = pos 50;
          available_in_shop = true;
          fertilizer_effect_time_reduce = pos 1800;
        }
        ∷ [];
  };
  sent = [];
}
