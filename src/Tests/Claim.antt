-- ===== src/Tests/Claim.antt =====
-- Claims of the daily reward.
use cifarm_server_alternativ.Prelude.{refl, ◌≡◌, Bool, false, some, ℤ, pos, length}
use cifarm_server_alternativ.Entities.{UserEntity}
use cifarm_server_alternativ.Service.{perform, finish}
use cifarm_server_alternativ.Claim.{claim_daily_reward, balance_changes}
use cifarm_server_alternativ.Claim.Reward.{IsRewarded, claim_daily_reward-IsRewarded}
use cifarm_server_alternativ.Gameplay.Wallet
use cifarm_server_alternativ.Tests.Memory.{memory, user_row}
use cifarm_server_alternativ.Tests.Memory.Laws.{memory_laws}
use cifarm_server_alternativ.Tests.Sample.{farm, start}

-- No two moments are the same.
abbrev unequal : ℤ → Bool
unequal time = false

claim_daily_reward-IsRewarded_example :
    (u v : UserEntity) × (user_row 1 farm ≡ some u)
    × (user_row 1 (perform memory (claim_daily_reward memory unequal (pos 7) 1) start).1.state
        ≡ some v)
    × (length farm.daily_rewards ≡ 5)
    × IsRewarded farm.daily_rewards (pos 7) u v
unfolding claim_daily_reward perform finish balance_changes Wallet.add_golds
claim_daily_reward-IsRewarded_example =
    claim_daily_reward-IsRewarded memory unequal (pos 7) 1 memory_laws start
      (perform memory (claim_daily_reward memory unequal (pos 7) 1) start).1 refl
