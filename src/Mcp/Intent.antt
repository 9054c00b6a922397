-- ===== src/Mcp/Intent.antt =====
-- packages/mcp/src/intent-check.ts: the declared intent against the decoded graph.
pub mod Agreed
mod Tests
use strategy_builder_v.Prelude.{
  ℕ, zero, suc, ◌+◌, Option, none, some, List, [], ◌∷◌, ◌++◌, Bool, true, false, not, filter,
  length, if◌then◌else◌, ◌==◌,
}
use strategy_builder_v.Shared.Text.{Text, text, same_text, to_lower}
use strategy_builder_v.Shared.Digits.{to_text}
use strategy_builder_v.Graph.{StepCategory, condition, action}
use strategy_builder_v.Mcp.Deploy.{DecodedStep, DecodedSummary}

-- A direction is given as `String` shows it.
pub record IntentAction : Type 0 where
  pub token : Option Text
  pub direction : Option Text
  pub amount : Option Text

-- `public` is `for_owner = false`; the period is that of the trigger, if there is one.
pub record FlatIntent : Type 0 where
  pub for_owner : Bool
  pub period_seconds : Option ℕ
  pub actions : List IntentAction

pub record CrossCheckResult : Type 0 where
  pub ok : Bool
  pub diffs : List Text
  pub warnings : List Text

execution : Bool → Text
execution true = text "owner"
execution false = text "public"

same_execution : Bool → Bool → Bool
same_execution true true = true
same_execution false false = true
same_execution _ _ = false

execution_diffs : Bool → Bool → List Text
unfolding execution same_execution
execution_diffs declared owner_only =
    if same_execution declared owner_only
    then []
    else (text "execution: Intent „"
        ++ execution declared
        ++ text "\" ≠ abgeleitete Topologie „"
        ++ execution owner_only
        ++ text "\".")
      ∷ []

-- One field of an action: a difference only where both sides give it.
field_diffs : (Text → Text) → Text → ℕ → Option Text → Option Text → List Text
field_diffs f label n none step = []
field_diffs f label n (some want) none = []
field_diffs f label n (some want) (some step) =
    if same_text (f want) (f step)
    then []
    else (text "Action "
        ++ to_text n
        ++ label
        ++ text ": Intent "
        ++ want
        ++ text " ≠ Graph "
        ++ step
        ++ text ".")
      ∷ []

unchanged : Text → Text
unchanged s = s

action_diffs : ℕ → IntentAction → DecodedStep → List Text
unfolding field_diffs unchanged
action_diffs n want step =
    field_diffs to_lower (text " Token") n want.token step.token
    ++ (field_diffs unchanged (text " Betrag") n want.amount step.amount
        ++ field_diffs unchanged (text " Richtung") n want.direction step.direction)

-- `actions.forEach`, where both lists have one length.
each_action : ℕ → List IntentAction → List DecodedStep → List Text
unfolding action_diffs
each_action n [] steps = []
each_action n (want ∷ wants) [] = []
each_action n (want ∷ wants) (step ∷ steps) =
    action_diffs n want step ++ each_action (n + 1) wants steps

is_action : StepCategory → Bool
is_action condition = false
is_action action = true

unfoldable pub graph_actions : DecodedSummary → List DecodedStep
unfolding is_action
graph_actions decoded = filter (λ s. is_action s.category) decoded.steps

actions_diffs : List IntentAction → List DecodedStep → List Text
unfolding each_action
actions_diffs wants steps =
    if length steps == length wants
    then each_action 1 wants steps
    else (text "Action-Anzahl: Intent "
        ++ to_text (length wants)
        ++ text " ≠ Graph "
        ++ to_text (length steps)
        ++ text ".")
      ∷ []

trigger_diffs : Option ℕ → Option ℕ → List Text
trigger_diffs none seconds = []
trigger_diffs (some period) none = []
trigger_diffs (some period) (some seconds) =
    if period == seconds
    then []
    else (text "Trigger-Periode: Intent "
        ++ to_text period
        ++ text "s ≠ Graph "
        ++ to_text seconds
        ++ text "s.")
      ∷ []

none_left : List Text → Bool
none_left [] = true
none_left (d ∷ diffs) = false

all_diffs : FlatIntent → DecodedSummary → Bool → Option ℕ → List Text
unfolding execution_diffs graph_actions actions_diffs trigger_diffs
all_diffs intent decoded owner_only trigger_seconds =
    execution_diffs intent.for_owner owner_only
    ++ (actions_diffs intent.actions (graph_actions decoded)
        ++ trigger_diffs intent.period_seconds trigger_seconds)

unfoldable pub cross_check_intent :
    FlatIntent → DecodedSummary → Bool → Option ℕ → Bool → CrossCheckResult
unfolding all_diffs none_left
cross_check_intent intent decoded owner_only trigger_seconds branched =
    let diffs = all_diffs intent decoded owner_only trigger_seconds in
    record {
      ok = none_left diffs;
      diffs = diffs;
      warnings =
          (if branched
            then (text
                "Verzweigter Graph — nicht voll cross-checkbar; im Confirm-Gate besonders prüfen.")
              ∷ []
            else [])
          ++ decoded.warnings;
    }
