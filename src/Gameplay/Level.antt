-- ===== src/Gameplay/Level.antt =====
-- `LevelService` (src/gameplay/level/level.service.ts).
pub mod Quota
pub mod Gain
use cifarm_server_alternativ.Prelude.{
  Option, none, some, ℤ, pos, ◌+ℤ◌, ◌-ℤ◌, ◌*ℤ◌, leb_ℤ, if◌then◌else◌,
}
use cifarm_server_alternativ.Result.{
  Result, ok, err, throw_if, ◌>>◌, experience_cannot_be_zero_or_negative,
}
use cifarm_server_alternativ.Entities.{UserEntity, UserChanges, no_changes}

unfoldable pub compute_experiences_quota : ℤ → ℤ
compute_experiences_quota level =
    pos 50 *ℤ level +ℤ pos 25 *ℤ ((level -ℤ pos 1) *ℤ (level -ℤ pos 1))

-- Both branches of `if (current >= quota)`: the new level, which may be missing, and the experiences.
unfoldable pub add_experiences : UserEntity → ℤ → Result UserChanges
add_experiences entity experiences = do
  throw_if (leb_ℤ experiences (pos 0)) (experience_cannot_be_zero_or_negative experiences)
  let quota = compute_experiences_quota entity.level
  let current = entity.experiences +ℤ experiences
  ok (
      if leb_ℤ quota current
      then record no_changes {
        level = some (entity.level +ℤ pos 1);
        experiences = some (entity.experiences -ℤ quota);
      }
      else record no_changes { experiences = some current })
