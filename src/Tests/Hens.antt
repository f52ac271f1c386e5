-- ===== src/Tests/Hens.antt =====
-- The care of animals, on the two farms.
use cifarm_server_alternativ.Farming.Animals
use cifarm_server_alternativ.Gameplay.Energy
use cifarm_server_alternativ.Gameplay.Level
