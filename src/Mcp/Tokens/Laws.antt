-- ===== src/Mcp/Tokens/Laws.antt =====
-- What the checks on a token, an amount and a vault guarantee where they pass.
use strategy_builder_v.Prelude.{ℕ, ◌≤◌, Option, none, some, List, true, ◌≡◌, arith, ◌∙◌, sym, subst}
use strategy_builder_v.Prelude.Result.{Result, ok, err, chain-ok}
use strategy_builder_v.Shared.Text.{Text, to_lower}
use strategy_builder_v.Shared.Digits.{read}
use strategy_builder_v.Shared.Amount.{AmountError, to_base_units}
use strategy_builder_v.Mcp.Tokens.{
  lookup, decimals_of, found_decimals, rethrown, base_of, check_max, check_limit, within_max,
  compare, owned, owns,
}

pub owned-ok :
    (vault : Text) (vaults : List Text) → owned vault vaults ≡ ok tt → owns vaults vault ≡ true
unfolding owned
owned-ok vault vaults h = ground (arith, h)

found_decimals-ok :
    (token : Text) (found : Option ℕ) (d : ℕ) → found_decimals token found ≡ ok d → found ≡ some d
unfolding found_decimals
found_decimals-ok token none d h = absurd (cc)
found_decimals-ok token (some e) d h = cc

pub decimals_of-ok :
    (token_decimals : List (Text × ℕ)) (token : Text) (d : ℕ)
    → decimals_of token_decimals token ≡ ok d
    → lookup (to_lower token) token_decimals ≡ some d
unfolding decimals_of
decimals_of-ok token_decimals token d h =
    found_decimals-ok token (lookup (to_lower token) token_decimals) d h

rethrown-ok : (r : Result AmountError Text) (base : Text) → rethrown r ≡ ok base → r ≡ ok base
unfolding rethrown
rethrown-ok (ok b) base h = cc
rethrown-ok (err e) base h = absurd (cc)

pub base_of-ok :
    (amount base : Text) (d : ℕ) → base_of amount d ≡ ok base → to_base_units amount d ≡ ok base
unfolding base_of
base_of-ok amount base d h = rethrown-ok (to_base_units amount d) base h

compare-ok :
    (amount max base limit : Text) → compare amount max base limit ≡ ok tt → read base ≤ read limit
unfolding compare
compare-ok amount max base limit h = ground (arith, h)

-- The base units are no more than what is configured for the token, if anything is.
abbrev pub Within : List (Text × Text) → Text → ℕ → Text → Type 0
Within max_per_token token decimals base =
    (max : Text)
    → lookup (to_lower token) max_per_token ≡ some max
    → (limit : Text) × (to_base_units max decimals ≡ ok limit) × (read base ≤ read limit)

within_max-ok :
    (amount max base : Text) (d : ℕ)
    → within_max amount max d ≡ ok tt
    → to_base_units amount d ≡ ok base
    → (limit : Text) × (to_base_units max d ≡ ok limit) × (read base ≤ read limit)
unfolding within_max
within_max-ok amount max base d h converted =
    let (b, h₁, of_amount) = chain-ok _ (base_of amount d) h in
    let (limit, h₂, of_max) = chain-ok _ (base_of max d) h₁ in
    let same : ok b ≡ ok base = sym (base_of-ok amount b d of_amount) ∙ converted in
    let b_eq : b ≡ base = cc in
    (
      limit,
      base_of-ok max limit d of_max,
      subst (λ x. read x ≤ read limit) b_eq (compare-ok amount max b limit h₂),
    )

pub check_max-Within :
    (max_per_token : List (Text × Text)) (token amount base : Text) (d : ℕ)
    → check_max max_per_token token amount d ≡ ok tt
    → to_base_units amount d ≡ ok base
    → Within max_per_token token d base
unfolding check_max check_limit
check_max-Within max_per_token token amount base d h converted max configured =
    within_max-ok amount max base d (rw configured at h) converted
