-- ===== src/Claim.antt =====
-- `ClaimDailyRewardService` (apps/gameplay-service/src/claim/claim-daily-reward).
pub mod Reward
pub mod Spin
use cifarm_server_alternativ.Prelude.{
  ℕ, Bool, false, Option, none, some, List, [], ◌∷◌, not, ℤ, pos, negsuc, ◌+ℤ◌, leb_ℤ, length,
  get_elem?, ◌==◌, if◌then◌else◌,
}
use cifarm_server_alternativ.Result.{
  Result, ok, err, ◌>>=◌, ◌>>◌, throw_if, deref, grpc_permission_denied, grpc_internal,
}
use cifarm_server_alternativ.Entities.{
  UserEntity, UserChanges, no_changes, spread, DailyRewardEntity,
}
use cifarm_server_alternativ.Database.{Database, Statement, update_user}
use cifarm_server_alternativ.Service.{Plan, Handler}
use cifarm_server_alternativ.Gameplay.Wallet

-- `null` counts as 0 in a sum.
abbrev pub amount_of : Option ℤ → ℤ
amount_of none = pos 0
amount_of (some amount) = amount

-- `dailyRewards[i]`
unfoldable pub reward_at : List DailyRewardEntity → ℤ → Option DailyRewardEntity
reward_at rewards (pos i) = get_elem? rewards i
reward_at rewards (negsuc i) = none

-- `user.spinLastTime && dayjs(user.spinLastTime).isSame()`
abbrev pub has_spun : (ℤ → Bool) → Option ℤ → Bool
has_spun is_same none = false
has_spun is_same (some time) = is_same time

-- The two branches on the streak.
unfoldable pub balance_changes : List DailyRewardEntity → UserEntity → Result UserChanges
unfolding reward_at
balance_changes rewards user =
    if leb_ℤ (pos 4) user.daily_reward_streak
    then (do
      last ← deref (reward_at rewards (pos 4))
      golds_changes ← Wallet.add_golds user (amount_of last.golds)
      tokens_changes ← Wallet.add_tokens user (amount_of last.tokens)
      ok (spread golds_changes tokens_changes))
    else (do
      reward ← deref (reward_at rewards user.daily_reward_streak)
      Wallet.add_golds user (amount_of reward.golds))

module _ (db : Database) where
  -- `is_same` is `dayjs(time).isSame()` at the moment of the call, and `now` is `dayjs()`.
  unfoldable pub claim_daily_reward : (ℤ → Bool) → ℤ → ℕ → Handler db (Unit {0})
  claim_daily_reward is_same now user_id s = do
    user ← deref (db.find_user user_id s)
    throw_if (has_spun is_same user.spin_last_time)
        (grpc_permission_denied "Spin already claimed today")
    let daily_rewards = db.find_daily_rewards s
    throw_if (not (length daily_rewards == 5)) (grpc_internal "Daily rewards not equal to 5")
    let user_changes = record no_changes {
      daily_reward_last_claim_time = some now;
      daily_reward_streak = some (user.daily_reward_streak +ℤ pos 1);
    }
    balance ← balance_changes daily_rewards user
    ok (record {
      statements = ok (update_user user.id (spread user_changes balance) ∷ []);
      messages = [];
      response = tt;
    })
