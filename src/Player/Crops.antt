-- ===== src/Player/Crops.antt =====
-- The six services that take care of a crop: three on the user's own farm
-- (apps/gameplay-service/src/farming) and three on a neighbor's (apps/gameplay-service/src/community).
use cifarm_server_alternativ.Prelude.{ℕ, List, [], ◌∷◌}
use cifarm_server_alternativ.Entities.{CropCurrentState, Activities, ActivityInfo}
use cifarm_server_alternativ.Database.{Database}
use cifarm_server_alternativ.Service.{Handler, PlacedItemsMessage}
use cifarm_server_alternativ.Farming.Crops
use cifarm_server_alternativ.Community.Help
use cifarm_server_alternativ.Community.Help.{neighbor_changed, farm_changed}

pub data CropCare : Type 0 where
  water use_pesticide use_herbicide : CropCare
  help_water help_use_pesticide help_use_herbicide : CropCare

-- The state that the crop must be in.
abbrev pub wanted : CropCare → CropCurrentState
wanted water = CropCurrentState.need_water
wanted use_pesticide = CropCurrentState.is_infested
wanted use_herbicide = CropCurrentState.is_weedy
wanted help_water = CropCurrentState.need_water
wanted help_use_pesticide = CropCurrentState.is_infested
wanted help_use_herbicide = CropCurrentState.is_weedy

-- The activity that is charged, as the code has it.
abbrev pub activity : CropCare → Activities → ActivityInfo
activity water value = value.water
activity use_pesticide value = value.help_use_pesticide
activity use_herbicide value = value.use_pesticide
activity help_water value = value.help_water
activity help_use_pesticide value = value.help_water
activity help_use_herbicide value = value.help_water

-- Whose farm it is.
abbrev pub farm : CropCare → (user_id neighbor_user_id : ℕ) → ℕ
farm water user_id neighbor_user_id = user_id
farm use_pesticide user_id neighbor_user_id = user_id
farm use_herbicide user_id neighbor_user_id = user_id
farm _ user_id neighbor_user_id = neighbor_user_id

abbrev pub messages : CropCare → ℕ → List PlacedItemsMessage
messages help_water neighbor_user_id = neighbor_changed neighbor_user_id ∷ []
messages help_use_pesticide neighbor_user_id = farm_changed neighbor_user_id ∷ []
messages help_use_herbicide neighbor_user_id = farm_changed neighbor_user_id ∷ []
messages _ neighbor_user_id = []

module _ (db : Database) (user_id neighbor_user_id tile_id : ℕ) where
  abbrev pub crop_care : CropCare → Handler db (Unit {0})
  crop_care water = Crops.water db user_id tile_id
  crop_care use_pesticide = Crops.use_pesticide db user_id tile_id
  crop_care use_herbicide = Crops.use_herbicide db user_id tile_id
  crop_care help_water = Help.help_water db user_id neighbor_user_id tile_id
  crop_care help_use_pesticide = Help.help_use_pesticide db user_id neighbor_user_id tile_id
  crop_care help_use_herbicide = Help.help_use_herbicide db user_id neighbor_user_id tile_id
