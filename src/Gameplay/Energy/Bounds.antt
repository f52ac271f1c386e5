-- ===== src/Gameplay/Energy/Bounds.antt =====
-- What `EnergyService` promises: the energy stays between 0 and the maximum of the level.
use cifarm_server_alternativ.Prelude.{
  ℕ, suc, ◌+◌, ◌*◌, ◌≡◌, some, ℤ, pos, ◌+ℤ◌, ◌-ℤ◌, ◌≤ℤ◌, arith, *ℤ_pos, -ℤ_parts, suc-sub_one,
  +ℤ-sub_cancel,
}
use cifarm_server_alternativ.Result.{ok}
use cifarm_server_alternativ.Entities.{UserEntity, UserChanges, no_changes, patch}
use cifarm_server_alternativ.Gameplay.Energy.{get_max_energy, add, substract, check_sufficient}

-- The maximum is 50 at level 1, and 3 more for each level above.
pub get_max_energy_lem : (k : ℕ) → get_max_energy (pos (suc k)) ≡ pos (50 + 3 * k)
unfolding get_max_energy ◌+ℤ◌
get_max_energy_lem k = rw (suc-sub_one k) (simp *ℤ_pos (ground arith))

pub add_bounded :
    (u : UserEntity) (x : ℤ) {c : UserChanges}
    → add u x ≡ ok c
    → (c.energy ≡ some (u.energy +ℤ x)) × (u.energy +ℤ x ≤ℤ get_max_energy u.level)
unfolding add
add_bounded u x h = ground arith

pub substract_bounded :
    (u : UserEntity) (x : ℤ) {c : UserChanges}
    → substract u x ≡ ok c
    → (c.energy ≡ some (u.energy -ℤ x)) × (pos 0 ≤ℤ u.energy -ℤ x)
unfolding substract
substract_bounded u x h = ground arith

-- Wherever the check passes, the subtraction that follows it in every service cannot throw.
pub substract-check_sufficient :
    (u : UserEntity) (x : ℤ)
    → check_sufficient u.energy x ≡ ok tt
    → substract u x ≡ ok (record no_changes { energy = some (u.energy -ℤ x) })
unfolding check_sufficient substract
substract-check_sufficient u x h = ground (arith, -ℤ_parts u.energy x)

-- Where the energy is at least 0 and `add` returns, a subtraction of the same amount from the user
-- after it returns, and gives the user from before.
pub substract-add :
    (u : UserEntity) (x : ℤ) {c : UserChanges}
    → pos 0 ≤ℤ u.energy
    → add u x ≡ ok c
    → (d : UserChanges) × (substract (patch c u) x ≡ ok d) × (patch d (patch c u) ≡ u)
unfolding add substract patch
substract-add u x nonneg h = (
  record no_changes { energy = some u.energy },
  ground (arith, +ℤ-sub_cancel u.energy x),
  ground arith,
)
