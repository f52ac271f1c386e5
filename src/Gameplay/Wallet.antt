-- ===== src/Gameplay/Wallet.antt =====
-- `GoldBalanceService` and `TokenBalanceService` (src/gameplay/wallet). Tokens are a float column
-- of the source; here they are whole multiples of a smallest amount, so that sums are exact.
pub mod Balance
pub mod Paid
use cifarm_server_alternativ.Prelude.{Option, none, some, ℤ, pos, ◌+ℤ◌, ◌-ℤ◌, ltb_ℤ}
use cifarm_server_alternativ.Result.{
  Result, ok, err, throw_if, ◌>>◌, gold_cannot_be_zero_or_negative, user_insufficient_gold,
  token_cannot_be_zero_or_negative, user_insufficient_token,
}
use cifarm_server_alternativ.Entities.{UserEntity, UserChanges, no_changes}

unfoldable pub check_sufficient_golds : ℤ → ℤ → Result (Unit {0})
check_sufficient_golds current required =
    throw_if (ltb_ℤ current required) (user_insufficient_gold current required)

unfoldable pub add_golds : UserEntity → ℤ → Result UserChanges
add_golds entity amount = do
  throw_if (ltb_ℤ amount (pos 0)) (gold_cannot_be_zero_or_negative amount)
  ok (record no_changes { golds = some (amount +ℤ entity.golds) })

unfoldable pub subtract_golds : UserEntity → ℤ → Result UserChanges
subtract_golds entity amount = do
  throw_if (ltb_ℤ amount (pos 0)) (gold_cannot_be_zero_or_negative amount)
  ok (record no_changes { golds = some (entity.golds -ℤ amount) })

pub check_sufficient_tokens : ℤ → ℤ → Result (Unit {0})
check_sufficient_tokens current required =
    throw_if (ltb_ℤ current required) (user_insufficient_token current required)

unfoldable pub add_tokens : UserEntity → ℤ → Result UserChanges
add_tokens entity amount = do
  throw_if (ltb_ℤ amount (pos 0)) (token_cannot_be_zero_or_negative amount)
  ok (record no_changes { tokens = some (amount +ℤ entity.tokens) })

unfoldable pub subtract_tokens : UserEntity → ℤ → Result UserChanges
unfolding check_sufficient_tokens
subtract_tokens entity amount = do
  throw_if (ltb_ℤ amount (pos 0)) (token_cannot_be_zero_or_negative amount)
  check_sufficient_tokens entity.tokens amount
  ok (record no_changes { tokens = some (entity.tokens -ℤ amount) })
