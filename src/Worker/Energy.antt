-- ===== src/Worker/Energy.antt =====
-- `EnergyWorker.process` (apps/cron-worker/src/energy/energy.worker.ts), on one user of the batch.
-- The times are in one unit.
pub mod Tick
use cifarm_server_alternativ.Prelude.{ℤ, pos, ◌+ℤ◌, ◌-ℤ◌, leb_ℤ, if◌then◌else◌}
use cifarm_server_alternativ.Entities.{UserEntity}
use cifarm_server_alternativ.Gameplay.Energy.{get_max_energy}

-- The function that is mapped over the batch.
pub regenerate : ℤ → ℤ → UserEntity → UserEntity
regenerate energy_regen_time time user =
    let waited = user.energy_regen_time +ℤ time in
    if leb_ℤ (get_max_energy user.level) user.energy
    then user
    else (if leb_ℤ energy_regen_time waited
        then record user {
          energy = user.energy +ℤ pos 1;
          energy_regen_time = waited -ℤ energy_regen_time;
        }
        else record user { energy_regen_time = waited })
