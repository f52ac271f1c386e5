-- ===== src/Gameplay/Activity.antt =====
-- What an activity does to the user who does it. The services repeat these three calls, the check,
-- the subtraction and the gain, and spread both changes into one update.
pub mod Paid
use cifarm_server_alternativ.Result.{Result, ok, ◌>>=◌, ◌>>◌}
use cifarm_server_alternativ.Entities.{UserEntity, UserChanges, ActivityInfo, spread}
use cifarm_server_alternativ.Gameplay.Energy
use cifarm_server_alternativ.Gameplay.Level

unfoldable pub activity_changes : UserEntity → ActivityInfo → Result UserChanges
activity_changes user info = do
  Energy.check_sufficient user.energy info.energy_consume
  energy_changes ← Energy.substract user info.energy_consume
  experiences_changes ← Level.add_experiences user info.experiences_gain
  ok (spread energy_changes experiences_changes)
