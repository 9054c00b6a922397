-- ===== src/Mcp/Tokens.antt =====
-- packages/mcp/src/token-utils.ts and packages/mcp/src/vault-guard.ts: the checks on the token, the
-- amount and the vault of an action.
pub mod Laws
use strategy_builder_v.Prelude.{
  ℕ, Option, none, some, List, [], ◌∷◌, ◌++◌, Bool, true, false, any, ltb, if◌then◌else◌,
}
use strategy_builder_v.Prelude.Result.{Result, ok, err, ◌>>=◌}
use strategy_builder_v.Shared.Text.{Text, text, same_text, to_lower}
use strategy_builder_v.Shared.Digits.{read, to_text}
use strategy_builder_v.Shared.Amount.{AmountError, invalid_amount, too_many_places, to_base_units}
use strategy_builder_v.Mcp.Gate.{Fault, thrown}

-- A lookup in an object or a `Map` with text keys.
abbrev pub lookup : {V : Type 0} → Text → List (Text × V) → Option V
lookup key [] = none
lookup key ((k, v) ∷ rest) = if same_text k key then some v else lookup key rest

abbrev pub amount_message : AmountError → Text
amount_message (invalid_amount value) = text "Invalid token amount: " ++ value
amount_message (too_many_places value decimals) =
    text "Token amount \""
    ++ value
    ++ text "\" has more than "
    ++ to_text decimals
    ++ text " decimal places"

found_decimals : Text → Option ℕ → Result Fault ℕ
found_decimals token (some d) = ok d
found_decimals token none = err (
    thrown (
      text "Nicht-kuratierter Token "
      ++ token
      ++ text " (unbekannte Decimals) — bitte einen akzeptierten Token wählen."))

unfoldable pub decimals_of : List (Text × ℕ) → Text → Result Fault ℕ
unfolding found_decimals
decimals_of token_decimals token = found_decimals token (lookup (to_lower token) token_decimals)

rethrown : Result AmountError Text → Result Fault Text
rethrown (ok base) = ok base
rethrown (err e) = err (thrown (amount_message e))

-- `toBaseUnits`, with its errors as they are thrown.
unfoldable pub base_of : Text → ℕ → Result Fault Text
unfolding rethrown
base_of amount decimals = rethrown (to_base_units amount decimals)

-- `BigInt` of base units is the number that their digits stand for.
compare : Text → Text → Text → Text → Result Fault (Unit {0})
compare amount max base limit =
    if ltb (read limit) (read base)
    then err (
        thrown (
          text "Betrag "
          ++ amount
          ++ text " übersteigt das konfigurierte Max-Limit "
          ++ max
          ++ text " für diesen Token — abgelehnt (separate Freigabe nötig)."))
    else ok tt

within_max : Text → Text → ℕ → Result Fault (Unit {0})
unfolding compare base_of
within_max amount max decimals = do
  base ← base_of amount decimals
  limit ← base_of max decimals
  compare amount max base limit

check_limit : Text → ℕ → Option Text → Result Fault (Unit {0})
unfolding within_max
check_limit amount decimals none = ok tt
check_limit amount decimals (some max) = within_max amount max decimals

unfoldable pub check_max : List (Text × Text) → Text → Text → ℕ → Result Fault (Unit {0})
unfolding check_limit
check_max max_per_token token amount decimals =
    check_limit amount decimals (lookup (to_lower token) max_per_token)

abbrev pub owns : List Text → Text → Bool
owns vaults vault = any (λ v. same_text (to_lower v) (to_lower vault)) vaults

-- What `makeAssertOwnedVault` does with the addresses that the backend lists for the owner.
unfoldable pub owned : Text → List Text → Result Fault (Unit {0})
owned vault vaults =
    if owns vaults vault
    then ok tt
    else err (
        thrown (
          text "Vault "
          ++ vault
          ++ text " gehört nicht zur verbundenen Adresse — Aktion abgelehnt."))
