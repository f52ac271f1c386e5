-- ===== src/Seed/Wheel.antt =====
-- The wheel of fortune that the seeders set up: spin-prize.seeder.ts, spin-slot.seeder.ts and the
-- `SpinInfo` of system.seeder.ts.
use cifarm_server_alternativ.Prelude.{
  ℕ, zero, suc, ◌+◌, ◌≤◌, ◌<◌, ◌≡◌, refl, sym, ap, ◌∙◌, true, List, [], ◌∷◌, ◌++◌, inl, inr,
  Bool-cases, take, length, All, length-append, if◌then◌else◌, leb, ltb, ◌&&◌, arith,
}
use mathlib.Core.Path.{subst}
use cifarm_server_alternativ.Entities.{
  SlotInfo, SpinPrizeEntity, AppearanceChance, appearance_chance_eq,
}
use cifarm_server_alternativ.Database.{Database}
use cifarm_server_alternativ.Claim.Spin.{rewardable_slots, hits}
use cifarm_server_alternativ.Seed.System
use cifarm_server_alternativ.Seed.Prizes.{prizes_of, slot_prizes, slots_from}

abbrev Are : AppearanceChance → List SpinPrizeEntity → Type 0
Are chance = All (λ prize. prize.appearance_chance ≡ chance)

same_chance : (a b : AppearanceChance) → appearance_chance_eq a b ≡ true → a ≡ b
same_chance AppearanceChance.common AppearanceChance.common h = refl
same_chance AppearanceChance.uncommon AppearanceChance.uncommon h = refl
same_chance AppearanceChance.rare AppearanceChance.rare h = refl
same_chance AppearanceChance.very_rare AppearanceChance.very_rare h = refl
same_chance a b h = absurd (ground arith)

length-prizes_of-append :
    (chance : AppearanceChance) (xs ys : List SpinPrizeEntity)
    → length (prizes_of chance (xs ++ ys))
      ≡ length (prizes_of chance xs) + length (prizes_of chance ys)
length-prizes_of-append chance [] ys = omega arith
length-prizes_of-append chance (x ∷ xs) ys =
    let more = length-prizes_of-append chance xs ys in
    elim (Bool-cases (appearance_chance_eq x.appearance_chance chance)) [
      | inl here ↦ ground (arith, more)
      | inr not_here ↦ ground (arith, more)
    ]

length-rewardable_slots :
    (chance : AppearanceChance) (id : ℕ) (prizes : List SpinPrizeEntity)
    → length (rewardable_slots chance (slots_from id prizes)) ≡ length (prizes_of chance prizes)
unfolding rewardable_slots
length-rewardable_slots chance id [] = refl
length-rewardable_slots chance id (x ∷ xs) =
    let more = length-rewardable_slots chance (suc id) xs in
    elim (Bool-cases (appearance_chance_eq x.appearance_chance chance)) [
      | inl here ↦ ground (arith, more)
      | inr not_here ↦ ground (arith, more)
    ]

length-slots_from :
    (id : ℕ) (prizes : List SpinPrizeEntity) → length (slots_from id prizes) ≡ length prizes
length-slots_from id [] = refl
length-slots_from id (x ∷ xs) = ap suc (length-slots_from (suc id) xs)

length-take : {A : Type 0} (n : ℕ) (xs : List A) → n ≤ length xs → length (take n xs) ≡ n
length-take zero [] h = refl
length-take zero (x ∷ xs) h = refl
length-take (suc n) [] h = absurd (omega arith)
length-take (suc n) (x ∷ xs) h = ap suc (length-take n xs (omega arith))

prizes_of-Are :
    (chance : AppearanceChance) (prizes : List SpinPrizeEntity)
    → Are chance (prizes_of chance prizes)
prizes_of-Are chance [] = tt
prizes_of-Are chance (x ∷ xs) =
    elim (Bool-cases (appearance_chance_eq x.appearance_chance chance)) [
      | inl here ↦
          subst (λ b. Are chance (if b then x ∷ prizes_of chance xs else prizes_of chance xs))
            (sym here) (same_chance x.appearance_chance chance here, prizes_of-Are chance xs)
      | inr not_here ↦
          subst (λ b. Are chance (if b then x ∷ prizes_of chance xs else prizes_of chance xs))
            (sym not_here) (prizes_of-Are chance xs)
    ]

take-Are :
    (chance : AppearanceChance) (n : ℕ) (prizes : List SpinPrizeEntity)
    → Are chance prizes
    → Are chance (take n prizes)
take-Are chance zero [] are = tt
take-Are chance (suc n) [] are = tt
take-Are chance zero (x ∷ xs) are = tt
take-Are chance (suc n) (x ∷ xs) (is, are) = (is, take-Are chance n xs are)

-- Of prizes of one chance, those of another chance are none, and those of the same are all.
length-prizes_of :
    (chance wanted : AppearanceChance) (prizes : List SpinPrizeEntity)
    → Are chance prizes
    → length (prizes_of wanted prizes)
      ≡ (if appearance_chance_eq chance wanted then length prizes else 0)
length-prizes_of chance wanted [] are = ground arith
length-prizes_of chance wanted (x ∷ xs) (is, are) =
    let more = length-prizes_of chance wanted xs are in
    let same = ap (λ c. appearance_chance_eq c wanted) is in
    elim (Bool-cases (appearance_chance_eq chance wanted)) [
      | inl here ↦ ground (arith, more, same)
      | inr not_here ↦ ground (arith, more, same)
    ]

-- How many of the prizes that are taken for one chance have a chance.
share :
    (chance wanted : AppearanceChance) (n : ℕ) (prizes : List SpinPrizeEntity)
    → n ≤ length (prizes_of chance prizes)
    → length (prizes_of wanted (take n (prizes_of chance prizes)))
      ≡ (if appearance_chance_eq chance wanted then n else 0)
share chance wanted n prizes enough =
    length-prizes_of chance wanted (take n (prizes_of chance prizes))
      (take-Are chance n (prizes_of chance prizes) (prizes_of-Are chance prizes))
    ∙ ap (λ k. if appearance_chance_eq chance wanted then k else 0)
        (length-take n (prizes_of chance prizes) enough)

-- The count of a chance in the seeded `SpinInfo`.
abbrev count_in : AppearanceChance → List (AppearanceChance × SlotInfo) → ℕ
count_in chance [] = 0
count_in chance ((key, info) ∷ rest) =
    if appearance_chance_eq key chance then info.count else count_in chance rest

abbrev pub seeded_count : AppearanceChance → ℕ
seeded_count chance = count_in chance System.spin_info.appearance_chance_slots

-- The prizes of the slots, by the seeded counts.
abbrev pub seeded_prizes : List SpinPrizeEntity → List SpinPrizeEntity
seeded_prizes =
    slot_prizes (seeded_count AppearanceChance.common) (seeded_count AppearanceChance.uncommon)
      (seeded_count AppearanceChance.rare) (seeded_count AppearanceChance.very_rare)

abbrev share_of : AppearanceChance → AppearanceChance → ℕ
share_of wanted chance = if appearance_chance_eq chance wanted then seeded_count chance else 0

counted :
    (wanted : AppearanceChance) (n : ℕ)
    → n
      ≡ share_of wanted AppearanceChance.common
        + (share_of wanted AppearanceChance.uncommon
            + (share_of wanted AppearanceChance.rare + share_of wanted AppearanceChance.very_rare))
    → n ≡ seeded_count wanted
counted AppearanceChance.common n h = h
counted AppearanceChance.uncommon n h = h
counted AppearanceChance.rare n h = h
counted AppearanceChance.very_rare n h = h

four_parts :
    {n m k a b c d a' b' c' d' : ℕ}
    → n ≡ m + d
    → m ≡ k + c
    → k ≡ a + b
    → a ≡ a'
    → b ≡ b'
    → c ≡ c'
    → d ≡ d'
    → n ≡ a' + (b' + (c' + d'))
four_parts p q r e f g h = omega arith

module _ (prizes : List SpinPrizeEntity)
    (enough : (chance : AppearanceChance)
      → seeded_count chance ≤ length (prizes_of chance prizes)) where
  abbrev taken_for : AppearanceChance → List SpinPrizeEntity
  taken_for chance = take (seeded_count chance) (prizes_of chance prizes)

  abbrev all_taken : List SpinPrizeEntity
  all_taken =
      taken_for AppearanceChance.common
      ++ taken_for AppearanceChance.uncommon
      ++ taken_for AppearanceChance.rare
      ++ taken_for AppearanceChance.very_rare

  part :
      (wanted chance : AppearanceChance)
      → length (prizes_of wanted (taken_for chance))
        ≡ (if appearance_chance_eq chance wanted then seeded_count chance else 0)
  part wanted chance = share chance wanted (seeded_count chance) prizes (enough chance)

  shares : (wanted : AppearanceChance) → length (prizes_of wanted all_taken) ≡ seeded_count wanted
  shares wanted =
      let c = taken_for AppearanceChance.common in
      let u = taken_for AppearanceChance.uncommon in
      let r = taken_for AppearanceChance.rare in
      let v = taken_for AppearanceChance.very_rare in
      let first = length-prizes_of-append wanted (c ++ u ++ r) v in
      let second = length-prizes_of-append wanted (c ++ u) r in
      let third = length-prizes_of-append wanted c u in
      counted wanted (length (prizes_of wanted all_taken)) (
        four_parts first second third (part wanted AppearanceChance.common)
          (part wanted AppearanceChance.uncommon) (part wanted AppearanceChance.rare)
          (part wanted AppearanceChance.very_rare))

  all_eight : length all_taken ≡ 8
  all_eight =
      let c = taken_for AppearanceChance.common in
      let u = taken_for AppearanceChance.uncommon in
      let r = taken_for AppearanceChance.rare in
      let v = taken_for AppearanceChance.very_rare in
      four_parts (length-append (c ++ u ++ r) v) (length-append (c ++ u) r) (length-append c u)
        (taken AppearanceChance.common) (taken AppearanceChance.uncommon)
        (taken AppearanceChance.rare) (taken AppearanceChance.very_rare)
    where
      taken : (chance : AppearanceChance) → length (taken_for chance) ≡ seeded_count chance
      taken chance = length-take (seeded_count chance) (prizes_of chance prizes) (enough chance)

-- In whatever order the prizes are listed, where there are at least as many of each chance as the
-- seeded `SpinInfo` counts, the rows that the seeder writes are eight, and as many of each chance
-- as it counts.
pub seeded_wheel :
    (prizes : List SpinPrizeEntity) (id : ℕ)
    → ((chance : AppearanceChance) → seeded_count chance ≤ length (prizes_of chance prizes))
    → (let slots = slots_from id (seeded_prizes prizes) in
        (length slots ≡ 8)
        × ((chance : AppearanceChance)
            → length (rewardable_slots chance slots) ≡ seeded_count chance))
unfolding slot_prizes
seeded_wheel prizes id enough = (
  length-slots_from id (seeded_prizes prizes) ∙ all_eight prizes enough,
  λ chance. length-rewardable_slots chance id (seeded_prizes prizes) ∙ shares prizes enough chance,
)

-- The tests of the loop over the chances: every random number passes exactly one.
abbrev pub chances_hit : ℕ → List (AppearanceChance × SlotInfo) → ℕ
chances_hit random [] = 0
chances_hit random ((chance, info) ∷ rest) =
    (if hits random info then 1 else 0) + chances_hit random rest

one_chance_hit :
    (random : ℕ) → random < 100 → chances_hit random System.spin_info.appearance_chance_slots ≡ 1
one_chance_hit random h = ground arith

abbrev pub seeded_chance : (random : ℕ) → AppearanceChance
seeded_chance random =
    if leb 95 random && ltb random 99 then AppearanceChance.rare else AppearanceChance.common
