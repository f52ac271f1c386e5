-- ===== src/Claim/Spin/Turn.antt =====
-- What a turn of the wheel gives.
use cifarm_server_alternativ.Prelude.{
  ℕ, ◌≡◌, refl, ap, ◌∙◌, sym, true, false, some, List, [], ◌∷◌, ℤ, pos, ◌+ℤ◌, ◌≤ℤ◌, length,
  get_elem?, arith, inl, inr, Option-cases, ==_refl,
}
use mathlib.Core.Path.{subst}
use cifarm_server_alternativ.Result.{ok, Result-cases}
use cifarm_server_alternativ.Entities.{
  UserEntity, UserChanges, spread, patch, SpinPrizeType, SpinPrizeEntity, InventoryEntity,
  SpinSlotEntity, SpinInfo, InventoryType, appearance_chance_eq,
}
use cifarm_server_alternativ.Database.{
  Database, DatabaseLaws, Statement, update_user, save_inventories, user_after, any_inventory,
  any_inventory_type,
}
use cifarm_server_alternativ.Service.{World, perform, Plan}
use cifarm_server_alternativ.Service.Atomic.{perform-Succeeds}
use cifarm_server_alternativ.Gameplay.Wallet
use cifarm_server_alternativ.Gameplay.Inventory
use cifarm_server_alternativ.Claim.{amount_of}
use cifarm_server_alternativ.Claim.Spin.{
  spin, spin_changes, chance_of, rewardable_slots, random_index, prize_statements, inventory_prize,
  has_spun_today,
}
use cifarm_server_alternativ.Claim.Spin.Chance.{rewardable_slots-chance}

abbrev pub IsKept : UserEntity → UserEntity → Type 0
IsKept u v = (v.golds ≡ u.golds) × (v.tokens ≡ u.tokens)

-- What a prize of each type makes of the balances.
abbrev pub IsBalance : SpinPrizeType → SpinPrizeEntity → UserEntity → UserEntity → Type 0
IsBalance SpinPrizeType.gold prize u v =
    (v.golds ≡ amount_of prize.golds +ℤ u.golds)
    × (pos 0 ≤ℤ amount_of prize.golds)
    × (v.tokens ≡ u.tokens)
IsBalance SpinPrizeType.token prize u v =
    (v.tokens ≡ amount_of prize.tokens +ℤ u.tokens)
    × (pos 0 ≤ℤ amount_of prize.tokens)
    × (v.golds ≡ u.golds)
IsBalance SpinPrizeType.seed prize u v = IsKept u v
IsBalance SpinPrizeType.supply prize u v = IsKept u v

-- The user `v` is the user `u` after a spin at `now` that won the prize.
pub record IsSpun (now : ℤ) (prize : SpinPrizeEntity) (u v : UserEntity) : Type 0 where
  pub last : v.spin_last_time ≡ some now
  pub count : v.spin_count ≡ u.spin_count +ℤ pos 1
  pub balance : IsBalance prize.type prize u v
  pub same_energy : v.energy ≡ u.energy
  pub same_level : (v.level ≡ u.level) × (v.experiences ≡ u.experiences)
  pub same_streak : v.daily_reward_streak ≡ u.daily_reward_streak

user_after-first :
    (u : UserEntity) (c : UserChanges) → user_after u.id (update_user u.id c ∷ []) u ≡ patch c u
unfolding user_after
user_after-first u c = rw (==_refl u.id) refl

user_after-saved :
    (u : UserEntity) (c : UserChanges) (saved : List InventoryEntity)
    → user_after u.id (update_user u.id c ∷ save_inventories saved ∷ []) u ≡ patch c u
unfolding user_after
user_after-saved u c saved = rw (==_refl u.id) refl

gold-IsSpun :
    (now : ℤ) (prize : SpinPrizeEntity) (u : UserEntity) (c : UserChanges)
    → prize.type ≡ SpinPrizeType.gold
    → Wallet.add_golds u (amount_of prize.golds) ≡ ok c
    → IsSpun now prize u (patch (spread (spin_changes now u) c) u)
unfolding Wallet.add_golds spread patch
gold-IsSpun now prize u c is h = record {
  last = ground arith;
  count = ground arith;
  balance =
      subst (λ t. IsBalance t prize u (patch (spread (spin_changes now u) c) u)) (sym is)
        (ground arith, ground arith, ground arith);
  same_energy = ground arith;
  same_level = (ground arith, ground arith);
  same_streak = ground arith;
}

token-IsSpun :
    (now : ℤ) (prize : SpinPrizeEntity) (u : UserEntity) (c : UserChanges)
    → prize.type ≡ SpinPrizeType.token
    → Wallet.add_tokens u (amount_of prize.tokens) ≡ ok c
    → IsSpun now prize u (patch (spread (spin_changes now u) c) u)
unfolding Wallet.add_tokens spread patch
token-IsSpun now prize u c is h = record {
  last = ground arith;
  count = ground arith;
  balance =
      subst (λ t. IsBalance t prize u (patch (spread (spin_changes now u) c) u)) (sym is)
        (ground arith, ground arith, ground arith);
  same_energy = ground arith;
  same_level = (ground arith, ground arith);
  same_streak = ground arith;
}

kept-IsSpun :
    (now : ℤ) (prize : SpinPrizeEntity) (u : UserEntity)
    → IsBalance prize.type prize u (patch (spin_changes now u) u)
    → IsSpun now prize u (patch (spin_changes now u) u)
unfolding patch
kept-IsSpun now prize u balance = record {
  last = refl;
  count = refl;
  balance = balance;
  same_energy = refl;
  same_level = (refl, refl);
  same_streak = refl;
}

IsKept-balance : (now : ℤ) (u : UserEntity) → IsKept u (patch (spin_changes now u) u)
unfolding patch
IsKept-balance now u = (refl, refl)

module _ (db : Database) (now : ℤ) (user_id : ℕ) where
  inventory_prize-user :
      (type : InventoryType) (u : UserEntity) (prize : SpinPrizeEntity) (s : db.State)
      (statements : List Statement)
      → inventory_prize db type now user_id u prize s ≡ ok statements
      → user_after u.id statements u ≡ patch (spin_changes now u) u
  unfolding inventory_prize
  inventory_prize-user type u prize s statements h =
      elim (Option-cases (
        db.find_inventory_type
          (record any_inventory_type { crop_id = prize.crop_id; type = some type }) s)) [
            | inl missing ↦ absurd (ground arith)
            | inr (found_type, found) ↦
                elim (Result-cases (
                  Inventory.add
                    (db.find_inventories
                      (record any_inventory {
                        user_id = some user_id;
                        inventory_type_id = some found_type.id;
                      })
                      s)
                    user_id found_type (amount_of prize.quantity))) [
                      | inl (e, threw) ↦ absurd (ground arith)
                      | inr (updated, added) ↦
                          let written : statements
                              ≡ update_user u.id (spin_changes now u)
                                ∷ save_inventories updated
                                ∷ [] =
                            ground arith in
                          ap (λ x. user_after u.id x u) written
                          ∙ user_after-saved u (spin_changes now u) updated
                    ]
          ]

  prize_statements-IsSpun :
      (t : SpinPrizeType) (u : UserEntity) (prize : SpinPrizeEntity) (s : db.State)
      (statements : List Statement)
      → prize.type ≡ t
      → prize_statements db now user_id u prize s ≡ ok statements
      → IsSpun now prize u (user_after u.id statements u)
  unfolding prize_statements
  prize_statements-IsSpun SpinPrizeType.gold u prize s statements is h =
      elim (Result-cases (Wallet.add_golds u (amount_of prize.golds))) [
        | inl (e, threw) ↦ absurd (ground arith)
        | inr (c, added) ↦
            let written : statements ≡ update_user u.id (spread (spin_changes now u) c) ∷ [] =
              ground arith in
            subst (IsSpun now prize u)
              (sym (
                ap (λ x. user_after u.id x u) written
                ∙ user_after-first u (spread (spin_changes now u) c)))
              (gold-IsSpun now prize u c is added)
      ]
  prize_statements-IsSpun SpinPrizeType.token u prize s statements is h =
      elim (Result-cases (Wallet.add_tokens u (amount_of prize.tokens))) [
        | inl (e, threw) ↦ absurd (ground arith)
        | inr (c, added) ↦
            let written : statements ≡ update_user u.id (spread (spin_changes now u) c) ∷ [] =
              ground arith in
            subst (IsSpun now prize u)
              (sym (
                ap (λ x. user_after u.id x u) written
                ∙ user_after-first u (spread (spin_changes now u) c)))
              (token-IsSpun now prize u c is added)
      ]
  prize_statements-IsSpun SpinPrizeType.seed u prize s statements is h =
      subst (IsSpun now prize u)
        (sym (inventory_prize-user InventoryType.seed u prize s statements (ground arith)))
        (kept-IsSpun now prize u (
          subst (λ t. IsBalance t prize u (patch (spin_changes now u) u)) (sym is)
            (IsKept-balance now u)))
  prize_statements-IsSpun SpinPrizeType.supply u prize s statements is h =
      subst (IsSpun now prize u)
        (sym (inventory_prize-user InventoryType.supply u prize s statements (ground arith)))
        (kept-IsSpun now prize u (
          subst (λ t. IsBalance t prize u (patch (spin_changes now u) u)) (sym is)
            (IsKept-balance now u)))

module _ (db : Database) (now : ℤ) (denominator random second user_id : ℕ) where
  -- What a plan of `spin` has found and written.
  pub record Planned (s : db.State) (statements : List Statement) (slot_id : ℕ) : Type 0 where
    pub user : UserEntity
    pub user_found : db.find_user user_id s ≡ some user
    pub rested : has_spun_today now user.spin_last_time ≡ false
    pub eight : length (db.find_spin_slots s) ≡ 8
    pub info : SpinInfo
    pub info_found : db.find_spin_info s ≡ some info
    pub slot : SpinSlotEntity
    pub slot_found :
        get_elem?
          (rewardable_slots (chance_of random info.appearance_chance_slots) (db.find_spin_slots s))
          (random_index second denominator (
            rewardable_slots
              (chance_of random info.appearance_chance_slots)
              (db.find_spin_slots s)))
        ≡ some slot
    pub slot_named : slot.id ≡ slot_id
    pub written : prize_statements db now user_id user slot.spin_prize s ≡ ok statements

  pub spin-Planned :
      (s : db.State) (plan : Plan ℕ) (statements : List Statement)
      → spin db now denominator random second user_id s ≡ ok plan
      → plan.statements ≡ ok statements
      → Planned s statements plan.response
  unfolding spin
  spin-Planned s plan statements h ran = elim (Option-cases (db.find_user user_id s)) [
    | inl missing ↦ absurd (ground arith)
    | inr (user, user_found) ↦ elim (Option-cases (db.find_spin_info s)) [
      | inl missing ↦ absurd (ground arith)
      | inr (info, info_found) ↦
          elim (Option-cases (
            get_elem?
              (rewardable_slots (chance_of random info.appearance_chance_slots)
                (db.find_spin_slots s))
              (random_index second denominator (
                rewardable_slots (chance_of random info.appearance_chance_slots)
                  (db.find_spin_slots s))))) [
                    | inl missing ↦ absurd (ground arith)
                    | inr (slot, slot_found) ↦
                        elim (Result-cases
                          (prize_statements db now user_id user slot.spin_prize s)) [
                            | inl (e, threw) ↦ absurd (ground arith)
                            | inr (ss, given) ↦ record {
                              user = user;
                              user_found = user_found;
                              rested = ground arith;
                              eight = ground arith;
                              info = info;
                              info_found = info_found;
                              slot = slot;
                              slot_found = slot_found;
                              slot_named = ground arith;
                              written = ground arith;
                            }
                          ]
                  ]
    ]
  ]

  pub spin-IsSpun :
      DatabaseLaws db
      → (w w' : World db) (slot_id : ℕ)
      → perform db (spin db now denominator random second user_id) w ≡ (ok slot_id, w')
      → (user user' : UserEntity) × (slot : SpinSlotEntity) × (info : SpinInfo) × (db.find_user
            user_id w.state
          ≡ some user)
        × (db.find_user user_id w'.state ≡ some user')
        × (has_spun_today now user.spin_last_time ≡ false)
        × (length (db.find_spin_slots w.state) ≡ 8)
        × (db.find_spin_info w.state ≡ some info)
        × (slot.id ≡ slot_id)
        × (appearance_chance_eq slot.spin_prize.appearance_chance
              (chance_of random info.appearance_chance_slots)
            ≡ true)
        × IsSpun now slot.spin_prize user user'
  spin-IsSpun laws w w' slot_id h =
      let r = perform-Succeeds db (spin db now denominator random second user_id) w w' slot_id h in
      let p = spin-Planned w.state r.plan r.statements r.planned r.no_throw in
      let chance = chance_of random p.info.appearance_chance_slots in
      let uid = laws.found_user user_id w.state p.user p.user_found in
      (
        p.user,
        user_after user_id r.statements p.user,
        p.slot,
        p.info,
        p.user_found,
        laws.commit_user user_id r.statements w.state w'.state p.user r.committed p.user_found,
        p.rested,
        p.eight,
        p.info_found,
        p.slot_named ∙ r.returned,
        rewardable_slots-chance chance (db.find_spin_slots w.state)
            (random_index second denominator (rewardable_slots chance (db.find_spin_slots w.state)))
            p.slot p.slot_found,
        subst (λ i. IsSpun now p.slot.spin_prize p.user (user_after i r.statements p.user)) uid
            (prize_statements-IsSpun db now user_id p.slot.spin_prize.type p.user p.slot.spin_prize
              w.state r.statements refl p.written),
      )
