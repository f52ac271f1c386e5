-- ===== src/Gameplay/Wallet/Paid.antt =====
-- What a payment in gold does to a user.
use cifarm_server_alternativ.Prelude.{◌≡◌, ℤ, pos, ◌-ℤ◌, ◌≤ℤ◌, arith, -ℤ_parts}
use cifarm_server_alternativ.Result.{ok}
use cifarm_server_alternativ.Entities.{UserEntity, UserChanges, patch}
use cifarm_server_alternativ.Gameplay.Wallet.{check_sufficient_golds, subtract_golds}

-- `v` is the user `u` after the payment.
pub record IsGoldPaid (cost : ℤ) (u v : UserEntity) : Type 0 where
  pub golds : v.golds ≡ u.golds -ℤ cost
  pub no_debt : pos 0 ≤ℤ v.golds
  pub cost_nonneg : pos 0 ≤ℤ cost
  pub same_energy : v.energy ≡ u.energy
  pub same_experiences : v.experiences ≡ u.experiences
  pub same_level : v.level ≡ u.level
  pub same_tokens : v.tokens ≡ u.tokens

pub subtract_golds-IsGoldPaid :
    (u : UserEntity) (cost : ℤ) {c : UserChanges}
    → check_sufficient_golds u.golds cost ≡ ok tt
    → subtract_golds u cost ≡ ok c
    → IsGoldPaid cost u (patch c u)
unfolding check_sufficient_golds subtract_golds patch
subtract_golds-IsGoldPaid u cost enough h = ground (arith, -ℤ_parts u.golds cost)
