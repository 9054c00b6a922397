-- ===== src/Mcp/Limits/Laws.antt =====
-- What the checks of a deposit and of a withdrawal guarantee.
use strategy_builder_v.Prelude.{ℕ, List, true, ◌≡◌, some, arith}
use strategy_builder_v.Prelude.Result.{ok, chain-ok}
use strategy_builder_v.Shared.Text.{Text, to_lower}
use strategy_builder_v.Shared.Amount.{to_base_units}
use strategy_builder_v.Mcp.Tokens.{lookup, decimals_of, check_max, base_of}
use strategy_builder_v.Mcp.Tokens.Laws.{decimals_of-ok, base_of-ok, Within, check_max-Within}
use strategy_builder_v.Mcp.Limits.{Config, allowed, check_recipient, deposit_base, withdraw_base}

-- The token is known, the amount is `base` in its base units, and that is within its limit.
pub record IsPriced (config : Config) (token amount base : Text) : Type 0 where
  pub decimals : ℕ
  pub curated : lookup (to_lower token) config.token_decimals ≡ some decimals
  pub converted : to_base_units amount decimals ≡ ok base
  pub within : Within config.max_per_token token decimals base

priced :
    (config : Config) (token amount base : Text) (d : ℕ)
    → decimals_of config.token_decimals token ≡ ok d
    → check_max config.max_per_token token amount d ≡ ok tt
    → base_of amount d ≡ ok base
    → IsPriced config token amount base
priced config token amount base d known limited converted = record {
  decimals = d;
  curated = decimals_of-ok config.token_decimals token d known;
  converted = base_of-ok amount base d converted;
  within =
      check_max-Within config.max_per_token token amount base d limited
        (base_of-ok amount base d converted);
}

check_recipient-ok :
    (allowlist : List Text) (recipient : Text)
    → check_recipient allowlist recipient ≡ ok tt
    → allowed allowlist recipient ≡ true
unfolding check_recipient
check_recipient-ok allowlist recipient h = ground (arith, h)

pub deposit_base-IsPriced :
    (config : Config) (token amount base : Text)
    → deposit_base config token amount ≡ ok base
    → IsPriced config token amount base
unfolding deposit_base
deposit_base-IsPriced config token amount base h =
    let (d, h₁, known) = chain-ok _ (decimals_of config.token_decimals token) h in
    let (u, h₂, limited) = chain-ok _ (check_max config.max_per_token token amount d) h₁ in
    priced config token amount base d known limited h₂

pub withdraw_base-IsPriced :
    (config : Config) (token amount recipient base : Text)
    → withdraw_base config token amount recipient ≡ ok base
    → IsPriced config token amount base × (allowed config.address_allowlist recipient ≡ true)
unfolding withdraw_base
withdraw_base-IsPriced config token amount recipient base h =
    let (d, h₁, known) = chain-ok _ (decimals_of config.token_decimals token) h in
    let (u, h₂, limited) = chain-ok _ (check_max config.max_per_token token amount d) h₁ in
    let (v, h₃, free) = chain-ok _ (check_recipient config.address_allowlist recipient) h₂ in
    (
      priced config token amount base d known limited h₃,
      check_recipient-ok config.address_allowlist recipient free,
    )
