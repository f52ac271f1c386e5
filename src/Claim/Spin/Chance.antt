-- ===== src/Claim/Spin/Chance.antt =====
-- Which chance a spin can have, and which slots have it.
use cifarm_server_alternativ.Prelude.{
  ℕ, zero, suc, ◌≡◌, ◌⊎◌, inl, inr, true, some, List, [], ◌∷◌, get_elem?, Bool-cases, arith,
}
use cifarm_server_alternativ.Entities.{
  AppearanceChance, appearance_chance_eq, SpinSlotEntity, SlotInfo,
}
use cifarm_server_alternativ.Claim.Spin.{chance_of, hits, rewardable_slots}

pub first_or_common :
    (random : ℕ) (key : AppearanceChance) (info : SlotInfo)
    (rest : List (AppearanceChance × SlotInfo))
    → ((chance_of random ((key, info) ∷ rest) ≡ key) × (hits random info ≡ true))
      ⊎ (chance_of random ((key, info) ∷ rest) ≡ AppearanceChance.common)
unfolding chance_of
first_or_common random key info rest = ground arith

pub rewardable_slots-chance :
    (chance : AppearanceChance) (slots : List SpinSlotEntity) (i : ℕ) (slot : SpinSlotEntity)
    → get_elem? (rewardable_slots chance slots) i ≡ some slot
    → appearance_chance_eq slot.spin_prize.appearance_chance chance ≡ true
unfolding rewardable_slots
rewardable_slots-chance chance [] i slot h = absurd (ground arith)
rewardable_slots-chance chance (first ∷ rest) zero slot h =
    elim (Bool-cases (appearance_chance_eq first.spin_prize.appearance_chance chance)) [
      | inl fits ↦ ground arith
      | inr other ↦ rewardable_slots-chance chance rest 0 slot (ground arith)
    ]
rewardable_slots-chance chance (first ∷ rest) (suc i) slot h =
    elim (Bool-cases (appearance_chance_eq first.spin_prize.appearance_chance chance)) [
      | inl fits ↦ rewardable_slots-chance chance rest i slot (ground arith)
      | inr other ↦ rewardable_slots-chance chance rest (suc i) slot (ground arith)
    ]
