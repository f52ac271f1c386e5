-- ===== src/Worker/Energy/Tick.antt =====
-- What a tick of the energy worker does to a user.
use cifarm_server_alternativ.Prelude.{
  ◌≡◌, refl, List, [], ◌∷◌, ℤ, pos, ◌+ℤ◌, ◌≤ℤ◌, ◌<ℤ◌, inl, inr, arith, +ℤ_parts, -ℤ-add_cancel,
  leb_ℤ, Bool-cases,
}
use cifarm_server_alternativ.Entities.{UserEntity}
use cifarm_server_alternativ.Gameplay.Energy.{get_max_energy}
use cifarm_server_alternativ.Worker.Energy.{regenerate}

-- The three ways a tick can go; `full` leaves the clock alone too.
pub data IsRegenerated (period time : ℤ) (u v : UserEntity) : Type 0 where
  full : get_max_energy u.level ≤ℤ u.energy → v ≡ u → IsRegenerated period time u v
  waiting :
      u.energy <ℤ get_max_energy u.level
      → u.energy_regen_time +ℤ time <ℤ period
      → v ≡ record u { energy_regen_time = u.energy_regen_time +ℤ time }
      → IsRegenerated period time u v
  gained :
      u.energy <ℤ get_max_energy u.level
      → period ≤ℤ u.energy_regen_time +ℤ time
      → v.energy ≡ u.energy +ℤ pos 1
      → v.energy_regen_time +ℤ period ≡ u.energy_regen_time +ℤ time
      → v.level ≡ u.level
      → IsRegenerated period time u v

-- A tick of the energy worker goes one of three ways: at the maximum or above it the row stays as
-- it is; below the maximum the clock gets the time, as long as it stays below the period; below the
-- maximum and with the period reached the energy is one more, the clock has the time and is less by
-- the period, and the level is the same.
pub regenerate-IsRegenerated :
    (period time : ℤ) (u : UserEntity) → IsRegenerated period time u (regenerate period time u)
unfolding regenerate
regenerate-IsRegenerated period time u =
    elim (Bool-cases (leb_ℤ (get_max_energy u.level) u.energy)) [
      | inl h ↦ full (ground arith) (ground arith)
      | inr h ↦ elim (Bool-cases (leb_ℤ period (u.energy_regen_time +ℤ time))) [
        | inl ripe ↦
            gained (ground arith) (ground arith) (ground arith)
              (rw (h, ripe) (-ℤ-add_cancel (u.energy_regen_time +ℤ time) period)) (ground arith)
        | inr short ↦ waiting (ground arith) (ground arith) (ground arith)
      ]
    ]

-- Any number of ticks, each with its own time.
pub regenerate_all : ℤ → List ℤ → UserEntity → UserEntity
regenerate_all period [] u = u
regenerate_all period (time ∷ rest) u = regenerate_all period rest (regenerate period time u)

one_tick :
    (period time : ℤ) (u : UserEntity)
    → u.energy ≤ℤ get_max_energy u.level
    → ((regenerate period time u).level ≡ u.level)
      × ((regenerate period time u).energy ≤ℤ get_max_energy u.level)
      × (u.energy ≤ℤ (regenerate period time u).energy)
unfolding regenerate
one_tick period time u h =
    let plus = +ℤ_parts u.energy (pos 1) in (ground arith, ground arith, ground arith)

-- However many ticks of the energy worker pass, with whatever times, a user whose energy was at
-- most the maximum of the level keeps the level, has no less energy, and no more than the maximum.
pub regenerate_bounded :
    (period : ℤ) (times : List ℤ) (u : UserEntity)
    → u.energy ≤ℤ get_max_energy u.level
    → let v = regenerate_all period times u in
      (v.level ≡ u.level) × (v.energy ≤ℤ get_max_energy v.level) × (u.energy ≤ℤ v.energy)
unfolding regenerate_all
regenerate_bounded period [] u h = (refl, h, omega arith)
regenerate_bounded period (time ∷ rest) u h =
    let (level, bound, grown) = one_tick period time u h in
    let (level', bound', grown') =
      regenerate_bounded period rest (regenerate period time u) (rw level bound) in
    (rw level' level, bound', omega arith)
