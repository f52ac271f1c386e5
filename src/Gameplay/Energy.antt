-- ===== src/Gameplay/Energy.antt =====
-- `EnergyService` (src/gameplay/energy/energy.service.ts).
pub mod Bounds
use cifarm_server_alternativ.Prelude.{
  Option, none, some, ℤ, pos, ◌+ℤ◌, ◌-ℤ◌, ◌*ℤ◌, ltb_ℤ, if◌then◌else◌,
}
use cifarm_server_alternativ.Result.{
  Result, ok, err, throw_if, ◌>>◌, energy_exceeds_maximum, energy_not_enough,
}
use cifarm_server_alternativ.Entities.{UserEntity, UserChanges, no_changes}

unfoldable pub get_max_energy : ℤ → ℤ
get_max_energy level = pos 50 +ℤ (level -ℤ pos 1) *ℤ pos 3

unfoldable pub add : UserEntity → ℤ → Result UserChanges
add entity energy = do
  let max_energy = get_max_energy entity.level
  throw_if (ltb_ℤ max_energy (entity.energy +ℤ energy))
      (energy_exceeds_maximum (entity.energy +ℤ energy) max_energy)
  ok (record no_changes { energy = some (entity.energy +ℤ energy) })

unfoldable pub substract : UserEntity → ℤ → Result UserChanges
substract entity energy = do
  throw_if (ltb_ℤ (entity.energy -ℤ energy) (pos 0))
      (energy_exceeds_maximum (entity.energy -ℤ energy) (pos 0))
  ok (record no_changes { energy = some (entity.energy -ℤ energy) })

unfoldable pub check_sufficient : ℤ → ℤ → Result (Unit {0})
check_sufficient current required =
    throw_if (ltb_ℤ current required) (energy_not_enough current required)
