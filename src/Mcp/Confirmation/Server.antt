-- ===== src/Mcp/Confirmation/Server.antt =====
-- The confirmation provider that packages/mcp/src/index.ts puts together: elicitation, and the local page where the
-- client does not support that.
mod Tests
use strategy_builder_v.Prelude.{List, [], ◌∷◌, Bool, true, false, ◌&&◌, ◌||◌, ◌==◌, any}
use strategy_builder_v.Prelude.Exec.{Exec}
use strategy_builder_v.Shared.Text.{Text, text, to_lower}
use strategy_builder_v.Mcp.Gate.{Fault, message}
use strategy_builder_v.Mcp.Confirmation.{ElicitResult, elicited, composite}

unfoldable pub starts_with : Text → Text → Bool
starts_with [] s = true
starts_with (p ∷ ps) [] = false
starts_with (p ∷ ps) (c ∷ s) = p == c && starts_with ps s

-- `s.includes(part)`
unfoldable pub contains : Text → Text → Bool
unfolding starts_with
contains part [] = starts_with part []
contains part (c ∷ s) = starts_with part (c ∷ s) || contains part s

-- What the two regular expressions match, whatever the case of the letters.
abbrev pub unsupported_phrases : List Text
unsupported_phrases =
    text "client does not support elicitation"
    ∷ text "client does not support form elicitation"
    ∷ text "client does not support url elicitation"
    ∷ text "method not found"
    ∷ []

unfoldable pub is_elicitation_unsupported : Fault → Bool
unfolding contains
is_elicitation_unsupported fault =
    any (λ phrase. contains phrase (to_lower (message fault))) unsupported_phrases
    || contains (text "-32601") (message fault)

module _ {W R : Type 0} (elicit_input : R → Exec W Fault ElicitResult)
    (ask_page : R → Exec W Fault Bool) where
  unfoldable pub server_approval : R → Exec W Fault Bool
  unfolding composite elicited is_elicitation_unsupported
  server_approval = composite (elicited elicit_input) ask_page is_elicitation_unsupported
