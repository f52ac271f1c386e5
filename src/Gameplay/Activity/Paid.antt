-- ===== src/Gameplay/Activity/Paid.antt =====
-- How an activity changes the user who does it, and when it is allowed.
use cifarm_server_alternativ.Prelude.{
  ◌≡◌, refl, pos, ◌+ℤ◌, ◌-ℤ◌, ◌≤ℤ◌, ◌<ℤ◌, arith, -ℤ_parts, inl, inr,
}
use cifarm_server_alternativ.Result.{ok, Result-cases}
use cifarm_server_alternativ.Entities.{UserEntity, UserChanges, ActivityInfo, spread, patch}
use cifarm_server_alternativ.Gameplay.Energy
use cifarm_server_alternativ.Gameplay.Level
use cifarm_server_alternativ.Gameplay.Activity.{activity_changes}

-- `v` is the user `u` after the activity.
pub record IsPaid (info : ActivityInfo) (u v : UserEntity) : Type 0 where
  pub energy : v.energy ≡ u.energy -ℤ info.energy_consume
  pub no_debt : pos 0 ≤ℤ v.energy
  pub gain_pos : pos 0 <ℤ info.experiences_gain
  -- below the quota of the level
  pub gained :
      u.experiences +ℤ info.experiences_gain <ℤ Level.compute_experiences_quota u.level
      → (v.level ≡ u.level) × (v.experiences ≡ u.experiences +ℤ info.experiences_gain)
  -- at or above it
  pub levelled :
      Level.compute_experiences_quota u.level ≤ℤ u.experiences +ℤ info.experiences_gain
      → (v.level ≡ u.level +ℤ pos 1)
        × (v.experiences ≡ u.experiences -ℤ Level.compute_experiences_quota u.level)
  pub same_golds : v.golds ≡ u.golds
  pub same_tokens : v.tokens ≡ u.tokens
  pub same_id : v.id ≡ u.id

-- Where the check, the subtraction and the gain of an activity return, the user has less energy by
-- what it consumes and not below 0. The gain is positive: below the quota of the level it is added
-- to the experiences and the level stays; at the quota or above, the level is one more and the
-- experiences are less by the quota. Golds, tokens and id stay.
pub activity_changes-IsPaid :
    (u : UserEntity) (info : ActivityInfo) {c : UserChanges}
    → activity_changes u info ≡ ok c
    → IsPaid info u (patch c u)
unfolding activity_changes Energy.check_sufficient Energy.substract Level.add_experiences spread
    patch
activity_changes-IsPaid u info h = record {
  energy = ground arith;
  no_debt = ground arith;
  gain_pos = ground arith;
  gained = λ below. ground arith;
  levelled = λ reached. ground arith;
  same_golds = ground arith;
  same_tokens = ground arith;
  same_id = refl;
}

-- With enough energy, and a gain above 0, the check, the subtraction and the gain of an activity
-- return.
pub activity_changes_total :
    (u : UserEntity) (info : ActivityInfo)
    → info.energy_consume ≤ℤ u.energy
    → pos 0 <ℤ info.experiences_gain
    → (c : UserChanges) × (activity_changes u info ≡ ok c)
unfolding activity_changes Energy.check_sufficient Energy.substract Level.add_experiences
activity_changes_total u info enough gain = elim (Result-cases (activity_changes u info)) [
  | inl (e, threw) ↦ absurd (ground (arith, -ℤ_parts u.energy info.energy_consume))
  | inr paid ↦ paid
]
