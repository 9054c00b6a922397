-- ===== src/Mcp/Money.antt =====
-- packages/mcp/src/tools/money-movement.ts: deposits and withdrawals in the owner's name.
pub mod Safe
mod Tests
use strategy_builder_v.Prelude.{
  ℕ, String, Option, none, some, List, [], ◌∷◌, ◌++◌, ◌/◌, ◌%◌, Bool, true, false, any,
  if◌then◌else◌,
}
use strategy_builder_v.Prelude.Result.{Result, ok, err}
use strategy_builder_v.Prelude.Exec.{Exec, pure, lift, recover, ◌>>=◌, ◌>>◌}
use strategy_builder_v.Shared.Text.{Text, text, same_text, to_lower, pad_start}
use strategy_builder_v.Shared.Digits.{to_text}
use strategy_builder_v.Mcp.Gate.{
  GuardedAction, ConfirmationRequest, AuditEntry, Fault, thrown, guard,
}
use strategy_builder_v.Mcp.Tokens.{owned}
use strategy_builder_v.Mcp.Limits.{Config, deposit_base, withdraw_base}

pub record Details : Type 0 where
  pub vault : Text
  pub token : Text
  pub amount : Text
  pub recipient : Option Text

pub record Fees : Type 0 where
  pub deposit_fee_bps : ℕ
  pub withdraw_fee_bps : ℕ

pub data Kind : Type 0 where
  depositing withdrawing : Kind

-- What `depositOnChain` and `withdrawOnChain` are given.
pub record Deposit : Type 0 where
  pub vault : Text
  pub token : Text
  pub amount_base : Text

pub record Withdrawal : Type 0 where
  pub vault : Text
  pub token : Text
  pub amount_base : Text
  pub recipient : Text

bps_of : Kind → Fees → ℕ
bps_of depositing fees = fees.deposit_fee_bps
bps_of withdrawing fees = fees.withdraw_fee_bps

-- `(bps / 100).toFixed(2)` of a whole number of basis points.
percent : ℕ → Text
percent bps = to_text (bps / 100) ++ text "." ++ pad_start (to_text (bps % 100)) 2 48

pub fee_text : ℕ → Text
unfolding percent
fee_text bps = text "Gebühr " ++ to_text bps ++ text " BPS (" ++ percent bps ++ text " %)"

-- The world of the server: the audit log, the user, the backend and the chain.
module _ {W : Type 0} (audit : AuditEntry Details → Exec W Fault Unit)
    (request_approval : ConfirmationRequest Details → Exec W Fault Bool)
    (list_vaults : Exec W Fault (List Text)) (get_fees : Exec W Fault Fees) where
  -- `assertVault`, as packages/mcp/src/vault-guard.ts makes it.
  assert_vault : Text → Exec W Fault Unit
  assert_vault vault = do vaults ← list_vaults; lift (owned vault vaults)

  fee_line : Kind → Exec W Fault Text
  unfolding fee_text bps_of
  fee_line kind =
      recover (do fees ← get_fees; pure (fee_text (bps_of kind fees)))
        λ _. pure (text "Gebühr unbekannt")

  abbrev pub deposit_action : (vault token amount fee : Text) → GuardedAction Details
  deposit_action vault token amount fee = record {
    tool = "deposit";
    sensitive = true;
    summary =
        text "Einzahlung: "
        ++ amount
        ++ text " (Token "
        ++ token
        ++ text ") in Vault "
        ++ vault
        ++ text ". Kann eine einmalige ERC20-Freigabe (bis maxUint256) an den Vault auslösen. "
        ++ fee
        ++ text ".";
    details = record { vault = vault; token = token; amount = amount; recipient = none };
  }

  abbrev pub withdraw_action : (vault token amount recipient fee : Text) → GuardedAction Details
  withdraw_action vault token amount recipient fee = record {
    tool = "withdraw";
    sensitive = true;
    summary =
        text "Auszahlung: "
        ++ amount
        ++ text " (Token "
        ++ token
        ++ text ") → "
        ++ recipient
        ++ text " aus Vault "
        ++ vault
        ++ text ". "
        ++ fee
        ++ text ".";
    details = record { vault = vault; token = token; amount = amount; recipient = some recipient };
  }

  -- The result and the transaction hash are the same text.
  sent : Exec W Fault Text → Exec W Fault (Text × Option Text)
  sent send = do hash ← send; pure (hash, some hash)

  -- `guard` with the action and what it sends, once the fee is known.
  abbrev deposit_guarded :
      (Deposit → Exec W Fault Text)
      → Config
      → (vault token amount base fee : Text) → Exec W Fault Text
  deposit_guarded deposit_on_chain config vault token amount base fee =
      guard config.read_only audit request_approval (deposit_action vault token amount fee)
        (sent (deposit_on_chain (record { vault = vault; token = token; amount_base = base })))

  abbrev withdraw_guarded :
      (Withdrawal → Exec W Fault Text)
      → Config
      → (vault token amount recipient base fee : Text) → Exec W Fault Text
  withdraw_guarded withdraw_on_chain config vault token amount recipient base fee =
      guard config.read_only audit request_approval
        (withdraw_action vault token amount recipient fee)
        (sent (
          withdraw_on_chain
            (record { vault = vault; token = token; amount_base = base; recipient = recipient })))

  unfoldable pub deposit :
      (Deposit → Exec W Fault Text) → Config → (vault token amount : Text) → Exec W Fault Text
  unfolding assert_vault fee_line deposit_base sent
  deposit deposit_on_chain config vault token amount = do
    assert_vault vault
    base ← lift (deposit_base config token amount)
    fee ← fee_line depositing
    deposit_guarded deposit_on_chain config vault token amount base fee

  unfoldable pub withdraw :
      (Withdrawal → Exec W Fault Text)
      → Config
      → (vault token amount recipient : Text) → Exec W Fault Text
  unfolding assert_vault fee_line withdraw_base sent
  withdraw withdraw_on_chain config vault token amount recipient = do
    assert_vault vault
    base ← lift (withdraw_base config token amount recipient)
    fee ← fee_line withdrawing
    withdraw_guarded withdraw_on_chain config vault token amount recipient base fee
