-- ===== src/Gameplay/Thief.antt =====
-- `ThiefService` (src/gameplay/thief/thief.service.ts). The number that `Math.random` returns is an
-- argument, over the denominator of the two chances.
use cifarm_server_alternativ.Prelude.{ℕ, ◌≤◌, ◌<◌, ◌≡◌, ◌⊎◌, ℤ, pos, ltb, if◌then◌else◌, arith}

unfoldable pub compute : ℕ → ℕ → ℕ → ℤ
compute thief2 thief3 random =
    let value = if ltb thief2 random then pos 2 else pos 1 in
    if ltb thief3 random then pos 3 else value

-- A thief takes one to three pieces: three exactly above the chance `thief3`, and otherwise two
-- exactly above the chance `thief2`.
pub compute_cases :
    (thief2 thief3 random : ℕ)
    → ((thief3 < random) × (compute thief2 thief3 random ≡ pos 3))
      ⊎ (((random ≤ thief3) × (thief2 < random) × (compute thief2 thief3 random ≡ pos 2))
          ⊎ ((random ≤ thief3) × (random ≤ thief2) × (compute thief2 thief3 random ≡ pos 1)))
unfolding compute
compute_cases thief2 thief3 random = ground arith
