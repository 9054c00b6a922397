-- ===== src/Mcp/Limits.antt =====
-- packages/mcp/src/tools/money-movement.ts: the checks of `deposit` and `withdraw` on the token, the
-- amount and the recipient, and the amount in base units.
pub mod Laws
use strategy_builder_v.Prelude.{ℕ, List, ◌++◌, Bool, any, if◌then◌else◌}
use strategy_builder_v.Prelude.Result.{Result, ok, err, ◌>>=◌}
use strategy_builder_v.Shared.Text.{Text, text, same_text, to_lower}
use strategy_builder_v.Mcp.Gate.{Fault, thrown}
use strategy_builder_v.Mcp.Tokens.{decimals_of, base_of, check_max}

-- `MoneyConfig` and `tokenDecimals`; the owner's address is not read here.
pub record Config : Type 0 where
  pub read_only : Bool
  pub address_allowlist : List Text
  pub max_per_token : List (Text × Text)
  pub token_decimals : List (Text × ℕ)

abbrev pub allowed : List Text → Text → Bool
allowed allowlist recipient = any (λ a. same_text a (to_lower recipient)) allowlist

check_recipient : List Text → Text → Result Fault (Unit {0})
check_recipient allowlist recipient =
    if allowed allowlist recipient
    then ok tt
    else err (
        thrown (
          text "Withdraw-Empfänger "
          ++ recipient
          ++ text " ist nicht in der Adress-Allowlist — abgelehnt."))

-- The checks of `deposit` on the token and the amount, and the amount in base units.
unfoldable pub deposit_base : Config → (token amount : Text) → Result Fault Text
deposit_base config token amount = do
  decimals ← decimals_of config.token_decimals token
  _ ← check_max config.max_per_token token amount decimals
  base_of amount decimals

-- Those of `withdraw`.
unfoldable pub withdraw_base : Config → (token amount recipient : Text) → Result Fault Text
unfolding check_recipient
withdraw_base config token amount recipient = do
  decimals ← decimals_of config.token_decimals token
  _ ← check_max config.max_per_token token amount decimals
  _ ← check_recipient config.address_allowlist recipient
  base_of amount decimals
