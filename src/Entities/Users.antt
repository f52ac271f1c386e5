-- ===== src/Entities/Users.antt =====
-- Users, what they own and what they have sent out for delivery.
use cifarm_server_alternativ.Prelude.{ℕ, Bool, Option, none, some, ℤ}
use cifarm_server_alternativ.Entities.Catalog.{InventoryTypeEntity}

pub record UserEntity : Type 0 where
  pub id : ℕ
  pub golds : ℤ
  pub tokens : ℤ
  pub experiences : ℤ
  pub energy : ℤ
  pub energy_regen_time : ℤ
  pub level : ℤ
  pub daily_reward_streak : ℤ
  pub daily_reward_last_claim_time : Option ℤ
  pub spin_last_time : Option ℤ
  pub spin_count : ℤ

-- `id` is missing in an inventory that is not saved yet.
pub record InventoryEntity : Type 0 where
  pub id : Option ℕ
  pub quantity : ℤ
  pub premium : Bool
  pub user_id : ℕ
  pub inventory_type_id : ℕ
  pub inventory_type : Option InventoryTypeEntity

pub record DeliveringProductEntity : Type 0 where
  pub id : Option ℕ
  pub user_id : ℕ
  pub quantity : ℤ
  pub premium : Bool
  pub index : ℤ
  pub product_id : Option ℕ

-- `DeepPartial<UserEntity>`: a missing field leaves its column as it is.
pub record UserChanges : Type 0 where
  pub golds : Option ℤ
  pub tokens : Option ℤ
  pub experiences : Option ℤ
  pub energy : Option ℤ
  pub level : Option ℤ
  pub daily_reward_streak : Option ℤ
  pub daily_reward_last_claim_time : Option ℤ
  pub spin_last_time : Option ℤ
  pub spin_count : Option ℤ

abbrev pub no_changes : UserChanges
no_changes = record {
  golds = none;
  tokens = none;
  experiences = none;
  energy = none;
  level = none;
  daily_reward_streak = none;
  daily_reward_last_claim_time = none;
  spin_last_time = none;
  spin_count = none;
}

abbrev pub later {ℓ} : {A : Type ℓ} → Option A → Option A → Option A
later a none = a
later a (some b) = some b

-- `{ ...a, ...b }`
unfoldable pub spread : UserChanges → UserChanges → UserChanges
spread a b = record {
  golds = later a.golds b.golds;
  tokens = later a.tokens b.tokens;
  experiences = later a.experiences b.experiences;
  energy = later a.energy b.energy;
  level = later a.level b.level;
  daily_reward_streak = later a.daily_reward_streak b.daily_reward_streak;
  daily_reward_last_claim_time =
      later a.daily_reward_last_claim_time b.daily_reward_last_claim_time;
  spin_last_time = later a.spin_last_time b.spin_last_time;
  spin_count = later a.spin_count b.spin_count;
}

abbrev pub assigned {ℓ} : {A : Type ℓ} → Option A → A → A
assigned none a = a
assigned (some b) a = b

-- The row after an update with these changes.
unfoldable pub patch : UserChanges → UserEntity → UserEntity
patch c u = record u {
  golds = assigned c.golds u.golds;
  tokens = assigned c.tokens u.tokens;
  experiences = assigned c.experiences u.experiences;
  energy = assigned c.energy u.energy;
  level = assigned c.level u.level;
  daily_reward_streak = assigned c.daily_reward_streak u.daily_reward_streak;
  daily_reward_last_claim_time =
      later u.daily_reward_last_claim_time c.daily_reward_last_claim_time;
  spin_last_time = later u.spin_last_time c.spin_last_time;
  spin_count = assigned c.spin_count u.spin_count;
}
