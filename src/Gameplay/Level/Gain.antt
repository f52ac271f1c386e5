-- ===== src/Gameplay/Level/Gain.antt =====
-- What a gain of experiences does to a player.
use cifarm_server_alternativ.Prelude.{
  ◌≡◌, none, some, ℤ, pos, ◌+ℤ◌, ◌-ℤ◌, ◌≤ℤ◌, ◌<ℤ◌, ◌⊎◌, arith, int_laws,
}
use cifarm_server_alternativ.Result.{ok}
use cifarm_server_alternativ.Entities.{UserEntity, UserChanges, patch}
use cifarm_server_alternativ.Gameplay.Level.{compute_experiences_quota, add_experiences}

-- A gain below the quota is added in full, and the level stays.
pub gain_below_quota :
    (u : UserEntity) (x : ℤ) {c : UserChanges}
    → add_experiences u x ≡ ok c
    → u.experiences +ℤ x <ℤ compute_experiences_quota u.level
    → (c.level ≡ none) × (c.experiences ≡ some (u.experiences +ℤ x))
unfolding add_experiences
gain_below_quota u x h below = ground arith

level_up :
    (u : UserEntity) (x : ℤ) {c : UserChanges}
    → add_experiences u x ≡ ok c
    → compute_experiences_quota u.level ≤ℤ u.experiences +ℤ x
    → (c.level ≡ some (u.level +ℤ pos 1))
      × (c.experiences ≡ some (u.experiences -ℤ compute_experiences_quota u.level))
unfolding add_experiences
level_up u x h reached = ground arith

-- A gain that takes experiences from below the quota to the quota or above raises the level by one
-- and leaves experiences below 0: they are short of the sum less the quota by the whole gain.
pub level_up_loses_gain :
    (u : UserEntity) (x : ℤ) {c : UserChanges}
    → add_experiences u x ≡ ok c
    → u.experiences <ℤ compute_experiences_quota u.level
    → compute_experiences_quota u.level ≤ℤ u.experiences +ℤ x
    → let v = patch c u in
      (v.level ≡ u.level +ℤ pos 1)
      × (v.experiences <ℤ pos 0)
      × (v.experiences +ℤ x ≡ u.experiences +ℤ x -ℤ compute_experiences_quota u.level)
unfolding patch
level_up_loses_gain u x h below reached =
    let (up, left) = level_up u x h reached in rw (up, left) (omega int_laws)

-- In every case the level stays or rises by one.
pub level_step :
    (u : UserEntity) (x : ℤ) {c : UserChanges}
    → add_experiences u x ≡ ok c
    → ((patch c u).level ≡ u.level) ⊎ ((patch c u).level ≡ u.level +ℤ pos 1)
unfolding add_experiences patch
level_step u x h = ground arith
