-- ===== src/Mcp/Money/Tests.antt =====
-- Runs of deposits and withdrawals. The world counts the calls.
use strategy_builder_v.Prelude.{ℕ, ◌+◌, List, [], ◌∷◌, Bool, true, false, ◌≡◌, refl}
use strategy_builder_v.Prelude.Result.{ok}
use strategy_builder_v.Prelude.Exec.{Exec}
use strategy_builder_v.Shared.Text.{Text, text, trim}
use strategy_builder_v.Shared.Digits.{read, to_text}
use strategy_builder_v.Shared.Amount.{to_base_units, amount_parts}
use strategy_builder_v.Mcp.Tokens.{owned, decimals_of, check_max}
use strategy_builder_v.Mcp.Gate.{AuditEntry, ConfirmationRequest, Fault, guard}
use strategy_builder_v.Mcp.Limits.{Config, allowed}
use strategy_builder_v.Mcp.Limits.Laws.{IsPriced}
use strategy_builder_v.Mcp.Money.{
  Details, Fees, Deposit, Withdrawal, deposit_action, withdraw_action, deposit, withdraw,
}
use strategy_builder_v.Mcp.Money.Safe.{IsOwned, IsFeeOf, IsSent, deposit-IsSent, withdraw-IsSent}

noted : AuditEntry Details → Exec ℕ Fault (Unit {0})
noted e n = (ok tt, n + 1)

agrees : ConfirmationRequest Details → Exec ℕ Fault Bool
agrees req n = (ok true, n + 1)

vaults : Exec ℕ Fault (List Text)
vaults n = (ok (text "0xAb" ∷ []), n + 1)

fees : Exec ℕ Fault Fees
fees n = (ok (record { deposit_fee_bps = 25; withdraw_fee_bps = 50 }), n + 1)

deposits : Deposit → Exec ℕ Fault Text
deposits d n = (ok (text "0x1"), n + 1)

withdraws : Withdrawal → Exec ℕ Fault Text
withdraws d n = (ok (text "0x2"), n + 1)

abbrev config : Config
config = record {
  read_only = false;
  address_allowlist = text "0xee" ∷ [];
  max_per_token = (text "0xcc", text "2") ∷ [];
  token_decimals = (text "0xcc", 6) ∷ [];
}

deposit_runs :
    deposit noted agrees vaults fees deposits config (text "0xAB") (text "0xCC") (text "1.5") 0
    ≡ (ok (text "0x1"), 7)
unfolding deposit noted agrees vaults fees deposits owned decimals_of check_max to_base_units
    amount_parts trim read to_text guard
deposit_runs = refl

withdraw_runs :
    withdraw noted agrees vaults fees withdraws config
      (text "0xAB")
      (text "0xCC")
      (text "2")
      (text "0xEE")
      0
    ≡ (ok (text "0x2"), 7)
unfolding withdraw noted agrees vaults fees withdraws owned decimals_of check_max to_base_units
    amount_parts trim read to_text guard
withdraw_runs = refl

deposit-IsSent_example :
    (false ≡ false)
    × ((left : ℕ) × IsOwned noted agrees vaults fees (text "0xAB") 0 left
        × ((base : Text) × IsPriced config (text "0xCC") (text "1.5") base
            × ((fee : Text) × (priced_at : ℕ) × IsFeeOf noted agrees vaults fees
                  (λ fees. fees.deposit_fee_bps)
                  left
                  fee
                  priced_at
                × IsSent noted agrees vaults fees
                    (deposit_action noted agrees vaults fees
                      (text "0xAB")
                      (text "0xCC")
                      (text "1.5")
                      fee)
                    (deposits
                      (record { vault = text "0xAB"; token = text "0xCC"; amount_base = base }))
                    priced_at
                    (text "0x1")
                    7)))
deposit-IsSent_example =
    deposit-IsSent noted agrees vaults fees deposits config (text "0xAB") (text "0xCC") (text "1.5")
      0 7 (text "0x1") deposit_runs

withdraw-IsSent_example :
    (false ≡ false)
    × (allowed config.address_allowlist (text "0xEE") ≡ true)
    × ((left : ℕ) × IsOwned noted agrees vaults fees (text "0xAB") 0 left
        × ((base : Text) × IsPriced config (text "0xCC") (text "2") base
            × ((fee : Text) × (priced_at : ℕ) × IsFeeOf noted agrees vaults fees
                  (λ fees. fees.withdraw_fee_bps)
                  left
                  fee
                  priced_at
                × IsSent noted agrees vaults fees
                    (withdraw_action noted agrees vaults fees
                      (text "0xAB")
                      (text "0xCC")
                      (text "2")
                      (text "0xEE")
                      fee)
                    (withdraws (record {
                      vault = text "0xAB";
                      token = text "0xCC";
                      amount_base = base;
                      recipient = text "0xEE";
                    }))
                    priced_at
                    (text "0x2")
                    7)))
withdraw-IsSent_example =
    withdraw-IsSent noted agrees vaults fees withdraws config (text "0xAB") (text "0xCC") (text "2")
      (text "0xEE") 0 7 (text "0x2") withdraw_runs
