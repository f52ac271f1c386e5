-- ===== src/Gameplay/Level/Quota.antt =====
-- The experiences that a level asks for, against the table in the comment of the source.
use cifarm_server_alternativ.Prelude.{
  ℕ, zero, suc, ◌+◌, ◌*◌, ◌<◌, ◌≡◌, refl, pos, ◌+ℤ◌, ◌<ℤ◌, ◌∙◌, ap, arith, *ℤ_pos, suc-sub_one,
}
use cifarm_server_alternativ.Gameplay.Level.{compute_experiences_quota}

-- The quota of level k + 1 as a number.
quota : ℕ → ℕ
quota k = 50 * suc k + 25 * (k * k)

-- The table in the comment: 50, 125, 225, 350, … for the levels 1, 2, 3, 4, …
pub documented_quota : ℕ → ℕ
documented_quota zero = 50
documented_quota (suc k) = documented_quota k + 75 + 25 * k

pub triangle : ℕ → ℕ
triangle zero = 0
triangle (suc k) = triangle k + k

compute_experiences_quota-quota : (k : ℕ) → compute_experiences_quota (pos (suc k)) ≡ pos (quota k)
unfolding compute_experiences_quota quota ◌+ℤ◌
compute_experiences_quota-quota k = rw (suc-sub_one k) (simp *ℤ_pos (ground arith))

quota-documented_quota : (k : ℕ) → quota k ≡ documented_quota k + 25 * triangle k
unfolding quota documented_quota triangle
quota-documented_quota zero = refl
quota-documented_quota (suc k) = grind (arith, quota-documented_quota k)

-- At the level k + 1 the quota of the code is that of the table in its comment and 25 times the
-- k-th triangle number (0, 0, 1, 3, 6, …) more.
pub quota_exceeds_documented :
    (k : ℕ) → compute_experiences_quota (pos (suc k)) ≡ pos (documented_quota k + 25 * triangle k)
quota_exceeds_documented k = compute_experiences_quota-quota k ∙ ap pos (quota-documented_quota k)

pub triangle_pos : (k : ℕ) → 0 < triangle (suc (suc k))
unfolding triangle
triangle_pos k = ground arith

-- A higher level asks for more.
pub quota_increases :
    (k : ℕ)
    → compute_experiences_quota (pos (suc k)) <ℤ compute_experiences_quota (pos (suc (suc k)))
unfolding quota
quota_increases k =
    rw (compute_experiences_quota-quota k, compute_experiences_quota-quota (suc k)) (grind arith)
