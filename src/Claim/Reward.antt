-- ===== src/Claim/Reward.antt =====
-- What a claim gives, and that nothing keeps a user from claiming again.
use cifarm_server_alternativ.Prelude.{
  ℕ, ◌≡◌, refl, ap, ◌∙◌, Bool, none, some, List, [], ◌∷◌, ℤ, pos, ◌+ℤ◌, ◌≤ℤ◌, ◌<ℤ◌, leb_ℤ, min_ℤ,
  length, arith, inl, inr, Bool-cases, Option-cases, ==_refl,
}
use cifarm_server_alternativ.Result.{ok, Result-cases}
use cifarm_server_alternativ.Entities.{
  UserEntity, UserChanges, no_changes, spread, patch, DailyRewardEntity,
}
use cifarm_server_alternativ.Database.{Database, DatabaseLaws, Statement, update_user, user_after}
use cifarm_server_alternativ.Service.{World, perform, finish, Plan}
use cifarm_server_alternativ.Service.Atomic.{perform-Succeeds}
use cifarm_server_alternativ.Gameplay.Wallet
use cifarm_server_alternativ.Claim.{amount_of, reward_at, balance_changes, claim_daily_reward}

-- The user `v` is the user `u` after a claim at `now`: the reward is that of the day of the streak,
-- from the fifth day on the fifth, which alone has tokens.
pub record IsRewarded (rewards : List DailyRewardEntity) (now : ℤ) (u v : UserEntity) : Type 0 where
  pub reward : DailyRewardEntity
  pub found : reward_at rewards (min_ℤ u.daily_reward_streak (pos 4)) ≡ some reward
  pub streak : v.daily_reward_streak ≡ u.daily_reward_streak +ℤ pos 1
  pub claimed : v.daily_reward_last_claim_time ≡ some now
  pub golds : v.golds ≡ amount_of reward.golds +ℤ u.golds
  pub gift : pos 0 ≤ℤ amount_of reward.golds
  pub tokens_early : u.daily_reward_streak <ℤ pos 4 → v.tokens ≡ u.tokens
  pub tokens_late : pos 4 ≤ℤ u.daily_reward_streak → v.tokens ≡ amount_of reward.tokens +ℤ u.tokens
  pub same_energy : v.energy ≡ u.energy
  pub same_level : (v.level ≡ u.level) × (v.experiences ≡ u.experiences)

abbrev claim_changes : ℤ → UserEntity → UserChanges
claim_changes now u = record no_changes {
  daily_reward_last_claim_time = some now;
  daily_reward_streak = some (u.daily_reward_streak +ℤ pos 1);
}

reward_index :
    (rewards : List DailyRewardEntity) (i j : ℤ) (r : DailyRewardEntity)
    → i ≡ j
    → reward_at rewards j ≡ some r
    → reward_at rewards i ≡ some r
reward_index rewards i j r same h = rw same h

balance_changes-IsRewarded :
    (rewards : List DailyRewardEntity) (now : ℤ) (u : UserEntity) (c : UserChanges)
    → balance_changes rewards u ≡ ok c
    → IsRewarded rewards now u (patch (spread (claim_changes now u) c) u)
unfolding balance_changes Wallet.add_golds Wallet.add_tokens spread patch
balance_changes-IsRewarded rewards now u c h =
    elim (Bool-cases (leb_ℤ (pos 4) u.daily_reward_streak)) [
      | inl late ↦ elim (Option-cases (reward_at rewards (pos 4))) [
        | inl missing ↦ absurd (ground arith)
        | inr (reward, found) ↦ record {
          reward = reward;
          found =
              reward_index rewards (min_ℤ u.daily_reward_streak (pos 4)) (pos 4) reward
                (ground arith) found;
          streak = ground arith;
          claimed = ground arith;
          golds = ground arith;
          gift = ground arith;
          tokens_early = λ early. absurd (ground arith);
          tokens_late = λ at_end. ground arith;
          same_energy = ground arith;
          same_level = (ground arith, ground arith);
        }
      ]
      | inr early ↦ elim (Option-cases (reward_at rewards u.daily_reward_streak)) [
        | inl missing ↦ absurd (ground arith)
        | inr (reward, found) ↦ record {
          reward = reward;
          found =
              reward_index rewards (min_ℤ u.daily_reward_streak (pos 4)) u.daily_reward_streak
                reward (ground arith) found;
          streak = ground arith;
          claimed = ground arith;
          golds = ground arith;
          gift = ground arith;
          tokens_early = λ before. ground arith;
          tokens_late = λ at_end. absurd (ground arith);
          same_energy = ground arith;
          same_level = (ground arith, ground arith);
        }
      ]
    ]

user_after-update_user :
    (u : UserEntity) (c : UserChanges) → user_after u.id (update_user u.id c ∷ []) u ≡ patch c u
unfolding user_after
user_after-update_user u c = rw (==_refl u.id) refl

module _ (db : Database) (is_same : ℤ → Bool) (now : ℤ) (user_id : ℕ) where
  -- What a plan has found and written.
  record Planned (s : db.State) (statements : List Statement) : Type 0 where
    user : UserEntity
    changes : UserChanges
    user_found : db.find_user user_id s ≡ some user
    five : length (db.find_daily_rewards s) ≡ 5
    balance : balance_changes (db.find_daily_rewards s) user ≡ ok changes
    written : statements ≡ update_user user.id (spread (claim_changes now user) changes) ∷ []

  claim_daily_reward-Planned :
      (s : db.State) (plan : Plan (Unit {0})) (statements : List Statement)
      → claim_daily_reward db is_same now user_id s ≡ ok plan
      → plan.statements ≡ ok statements
      → Planned s statements
  unfolding claim_daily_reward
  claim_daily_reward-Planned s plan statements h ran =
      elim (Option-cases (db.find_user user_id s)) [
        | inl missing ↦ absurd (ground arith)
        | inr (user, user_found) ↦
            elim (Result-cases (balance_changes (db.find_daily_rewards s) user)) [
              | inl (e, threw) ↦ absurd (ground arith)
              | inr (changes, balance) ↦ record {
                user = user;
                changes = changes;
                user_found = user_found;
                five = ground arith;
                balance = balance;
                written = ground arith;
              }
            ]
      ]

  -- On a database that meets the laws, a call of `claim_daily_reward` that returns has found five
  -- rewards and, at the streak or at 4 if that is less, a reward whose golds, which are not
  -- negative, are added. The tokens of the reward are added from a streak of 4 on, and none before.
  -- The streak is one more, the claim time is the time of the call, and energy, level and
  -- experiences stay.
  pub claim_daily_reward-IsRewarded :
      DatabaseLaws db
      → (w w' : World db) → perform db (claim_daily_reward db is_same now user_id) w ≡ (ok tt, w')
      → (user user' : UserEntity) × (db.find_user user_id w.state ≡ some user)
        × (db.find_user user_id w'.state ≡ some user')
        × (length (db.find_daily_rewards w.state) ≡ 5)
        × IsRewarded (db.find_daily_rewards w.state) now user user'
  claim_daily_reward-IsRewarded laws w w' h =
      let r = perform-Succeeds db (claim_daily_reward db is_same now user_id) w w' tt h in
      let p = claim_daily_reward-Planned w.state r.plan r.statements r.planned r.no_throw in
      let changes = spread (claim_changes now p.user) p.changes in
      let uid = laws.found_user user_id w.state p.user p.user_found in
      let after : user_after user_id r.statements p.user ≡ patch changes p.user =
        rw (p.written, ← uid) (user_after-update_user p.user changes) in
      (
        p.user,
        patch changes p.user,
        p.user_found,
        laws.commit_user user_id r.statements w.state w'.state p.user r.committed p.user_found
            ∙ ap some after,
        p.five,
        balance_changes-IsRewarded (db.find_daily_rewards w.state) now p.user p.changes p.balance,
      )

  early_balance :
      (rewards : List DailyRewardEntity) (u : UserEntity) (reward : DailyRewardEntity)
      → reward_at rewards u.daily_reward_streak ≡ some reward
      → u.daily_reward_streak <ℤ pos 4
      → pos 0 ≤ℤ amount_of reward.golds
      → (c : UserChanges) × (balance_changes rewards u ≡ ok c)
  unfolding balance_changes Wallet.add_golds
  early_balance rewards u reward given early gift =
      (record no_changes { golds = some (amount_of reward.golds +ℤ u.golds) }, ground arith)

  -- `claim_daily_reward` returns for a user who is found, has never spun and has a streak below 4,
  -- whenever the last claim was, where there are five rewards, the one at the streak has golds of 0
  -- or more, and the database accepts every transaction.
  pub claim_daily_reward_returns :
      (w : World db) (user : UserEntity) (reward : DailyRewardEntity)
      → db.find_user user_id w.state ≡ some user
      → user.spin_last_time ≡ none
      → length (db.find_daily_rewards w.state) ≡ 5
      → reward_at (db.find_daily_rewards w.state) user.daily_reward_streak ≡ some reward
      → user.daily_reward_streak <ℤ pos 4
      → pos 0 ≤ℤ amount_of reward.golds
      → ((statements : List Statement) → (s' : db.State) × (db.commit statements w.state ≡ ok s'))
      → (perform db (claim_daily_reward db is_same now user_id) w).0 ≡ ok tt
  unfolding claim_daily_reward perform finish
  claim_daily_reward_returns w user reward found unspun five given early gift accepts =
      let (changes, balance) =
        early_balance (db.find_daily_rewards w.state) user reward given early gift in
      let (s', committed) =
        accepts (update_user user.id (spread (claim_changes now user) changes) ∷ []) in
      ground (arith, found, unspun, five, balance, committed)
