-- ===== src/Gameplay/Wallet/Balance.antt =====
-- What the two wallets promise, and where they differ: `subtract` checks the balance of tokens,
-- and leaves that of gold to its callers.
use cifarm_server_alternativ.Prelude.{
  ◌≡◌, ℤ, pos, ◌+ℤ◌, ◌-ℤ◌, ◌≤ℤ◌, arith, -ℤ_parts, +ℤ_parts, eq_of_parts,
}
use cifarm_server_alternativ.Result.{ok}
use cifarm_server_alternativ.Entities.{UserEntity, UserChanges, patch}
use cifarm_server_alternativ.Gameplay.Wallet.{
  check_sufficient_golds, subtract_golds, subtract_tokens,
}

-- After a check of the same amount, the subtraction leaves no debt.
pub subtract_golds_covered :
    (u : UserEntity) (amount : ℤ) {c : UserChanges}
    → check_sufficient_golds u.golds amount ≡ ok tt
    → subtract_golds u amount ≡ ok c
    → (pos 0 ≤ℤ (patch c u).golds) × ((patch c u).golds +ℤ amount ≡ u.golds)
unfolding check_sufficient_golds subtract_golds patch
subtract_golds_covered u amount enough h = ground (
  arith,
  -ℤ_parts u.golds amount,
  +ℤ_parts (u.golds -ℤ amount) amount,
  eq_of_parts (u.golds -ℤ amount +ℤ amount) u.golds,
)

-- Tokens are checked by the subtraction itself.
pub subtract_tokens_covered :
    (u : UserEntity) (amount : ℤ) {c : UserChanges}
    → subtract_tokens u amount ≡ ok c
    → (pos 0 ≤ℤ (patch c u).tokens) × ((patch c u).tokens +ℤ amount ≡ u.tokens)
unfolding subtract_tokens patch
subtract_tokens_covered u amount h = ground (
  arith,
  -ℤ_parts u.tokens amount,
  +ℤ_parts (u.tokens -ℤ amount) amount,
  eq_of_parts (u.tokens -ℤ amount +ℤ amount) u.tokens,
)
