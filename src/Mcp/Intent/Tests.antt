-- ===== src/Mcp/Intent/Tests.antt =====
-- Runs of the check of an intent.
use strategy_builder_v.Prelude.{some, none, [], ◌∷◌, true, false, ◌≡◌, refl}
use strategy_builder_v.Shared.Text.{text}
use strategy_builder_v.Graph.{action}
use strategy_builder_v.Mcp.Deploy.{DecodedSummary}
use strategy_builder_v.Mcp.Intent.{FlatIntent, graph_actions, cross_check_intent}
use strategy_builder_v.Mcp.Intent.Agreed.{IsAgreed, cross_check_intent-IsAgreed}

abbrev intent : FlatIntent
intent = record {
  for_owner = true;
  period_seconds = none;
  actions = record { token = some (text "0xCC"); direction = none; amount = some (text "5") } ∷ [];
}

abbrev decoded : DecodedSummary
decoded = record {
  steps =
      record {
        step_type = text "Transfer";
        category = action;
        token = some (text "0xcc");
        amount = some (text "5");
        amount_raw = none;
        recipient = none;
        direction = none;
      }
      ∷ [];
  warnings = [];
}

check_runs : (cross_check_intent intent decoded true (some 60) false).ok ≡ true
unfolding cross_check_intent graph_actions
check_runs = refl

cross_check_intent-IsAgreed_example : IsAgreed intent decoded true (some 60)
cross_check_intent-IsAgreed_example =
    cross_check_intent-IsAgreed intent decoded true (some 60) false check_runs
